-- ===== src/Gui/Tests.antt =====
-- Witnesses of the window manager.
use nova_kernel.Prelude.{ℕ, ◌==◌, ◌≡◌, refl, true, false, some, arith, if◌then◌else◌, [], ◌∷◌}
use nova_kernel.Gui.{Gui, max_win}
use nova_kernel.Gui.Focus.{FocusOk, HasFocus}
use nova_kernel.Gui.Desktop.{OnDesktop}
use nova_kernel.Gui.Draw.{Readings}
use nova_kernel.Gui.Loop.{
  Desk, mouse_irq, key_irq, frame, gui_frame, gui_run, gui_start, cycle_focus, gui_event, snapshot,
  frame_input, on_click, on_release, on_drag, on_key, paint,
}
use nova_kernel.Gui.Session.{gui_run-Usable}
use nova_kernel.Gui.Shown.{Shows, gui_frame-Shows}
use nova_kernel.Gui.Cycle.{NextOpen, cycle_focus-NextOpen}
use nova_kernel.Gui.Grip.{drag_after, gui_frame-drag}
use nova_kernel.Mouse.{
  Mouse, mouse_handler, mouse_left_clicked, mouse_left_released, mouse_left_down,
}
use nova_kernel.Keyboard.{Keyboard, keyboard_getc}
use nova_kernel.Vga.{Vga}
use nova_kernel.Vga.Font.{font8x8}

abbrev two_windows : Gui
two_windows = record {
  wins = λ i. record {
    used = if i == 0 then true else i == 1;
    kind = i;
    x = 10;
    y = 14;
    w = 168;
    h = 88;
    focused = i == 1;
  };
  focus = some 1;
  cascade = 2;
}

two_windows-FocusOk : FocusOk two_windows
unfolding HasFocus
two_windows-FocusOk = (omega arith, refl, refl)

two_windows-OnDesktop : OnDesktop two_windows
two_windows-OnDesktop i used = (omega arith, omega arith)

-- A desktop on which the second window is dragged, with the button up.
abbrev pointer : Mouse
pointer = record {
  x = 100;
  y = 180;
  buttons = 0;
  prev = 0;
  pkt0 = 0;
  pkt1 = 0;
  pkt2 = 0;
  cycle = 0;
  enabled = true;
}

abbrev no_keys : Keyboard
no_keys = record {
  kbuf = λ i. 0;
  head = 0;
  tail = 0;
  shift = false;
  caps = false;
  extended = false;
}

abbrev blank : Vga
blank = record { cells = λ i. 0; tx = 0; ty = 0; cur_attr = 0; cursor = 0; fb = λ i. 0 }

abbrev quiet : Readings
quiet = record {
  free_kb = 4096;
  heap_used = 64;
  task_count = 2;
  current_pid = 1;
  ticks = 7;
  fat_mounted = false;
  fat_free = 0;
}

abbrev dragging : Desk
dragging = record {
  gui = two_windows;
  mouse = pointer;
  keys = no_keys;
  drag = some 1;
  drag_dx = 5;
  drag_dy = 5;
  last = some (100, 180);
  need_redraw = false;
  screen = blank;
  running = true;
}

cycle_focus-NextOpen_example :
    (r : ℕ) × NextOpen max_win 1 two_windows r × ((cycle_focus two_windows).focus ≡ some r)
cycle_focus-NextOpen_example = cycle_focus-NextOpen 1 two_windows two_windows-FocusOk refl

gui_frame-drag_example : (gui_frame font8x8 quiet dragging).drag ≡ drag_after dragging
gui_frame-drag_example = gui_frame-drag font8x8 quiet dragging refl

gui_run-Usable_example :
    (let d =
        gui_run font8x8 quiet
          (key_irq 0x14 ∷ frame ∷ [])
          (gui_start pointer no_keys blank two_windows) in
      FocusOk d.gui × OnDesktop d.gui)
gui_run-Usable_example =
    gui_run-Usable font8x8 quiet (key_irq 0x14 ∷ frame ∷ []) pointer no_keys blank two_windows

goes_on :
    (gui_frame font8x8 quiet (
      gui_run font8x8 quiet
        (mouse_irq 8 ∷ [])
        (gui_start pointer no_keys blank two_windows))).running
    ≡ true
unfolding gui_frame gui_run gui_event gui_start mouse_handler snapshot mouse_left_clicked
    mouse_left_released frame_input on_click on_release on_drag on_key keyboard_getc paint
    mouse_left_down
goes_on = refl

gui_frame-Shows_example :
    (let d =
        gui_run font8x8 quiet (mouse_irq 8 ∷ []) (gui_start pointer no_keys blank two_windows) in
      Shows font8x8 quiet
        (gui_frame font8x8 quiet d).gui
        d.mouse.x
        d.mouse.y
        (gui_frame font8x8 quiet d).screen)
gui_frame-Shows_example =
    gui_frame-Shows font8x8 quiet (mouse_irq 8 ∷ []) pointer no_keys blank two_windows goes_on
