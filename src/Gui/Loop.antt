-- ===== src/Gui/Loop.antt =====
-- The loop of `gui_enter`, kernel/gui.c: a frame takes a snapshot of the mouse, handles the button and
-- at most one key, and paints. An interrupt of the mouse or the keyboard comes between two frames.
use nova_kernel.Prelude.{
  ℕ, zero, suc, ◌+◌, ◌-◌, ◌%◌, Bool, true, false, not, ◌||◌, ◌==◌, if◌then◌else◌, Option, none,
  some, List, [], ◌∷◌,
}
use nova_kernel.Mouse.{
  Mouse, mouse_handler, mouse_left_clicked, mouse_left_released, mouse_left_down,
}
use nova_kernel.Keyboard.{Keyboard, keyboard_handler, keyboard_getc}
use nova_kernel.Vga.{Vga, gfx_clear}
use nova_kernel.Gui.{
  Gui, max_win, win_at_title, win_at_close, win_raise, win_open, win_close, drag_to,
}
use nova_kernel.Gui.Draw.{
  Readings, win_console, win_about, win_meminfo, win_tasks, win_files, redraw_all, draw_cursor,
}

-- the snapshot of a frame
pub record Input : Type 0 where
  pub click : Bool
  pub release : Bool
  pub down : Bool
  pub mx : ℕ
  pub my : ℕ

-- The locals of `gui_enter` with the state of the drivers and the screen. `drag` is `none` for -1,
-- and `last` before the first frame. `running` ends with the loop.
pub record Desk : Type 0 where
  pub gui : Gui
  pub mouse : Mouse
  pub keys : Keyboard
  pub drag : Option ℕ
  pub drag_dx : ℕ
  pub drag_dy : ℕ
  pub last : Option (ℕ × ℕ)
  pub need_redraw : Bool
  pub screen : Vga
  pub running : Bool

unfoldable pub snapshot : Mouse → Input × Mouse
snapshot m =
    let (click, m1) = mouse_left_clicked m in
    let (release, m2) = mouse_left_released m1 in
    (
      record { click = click; release = release; down = mouse_left_down m2; mx = m2.x; my = m2.y },
      m2,
    )

-- A click, by the window whose close box it hits and the one whose title bar it hits.
unfoldable pub clicked_on : Option ℕ → Option ℕ → Input → Desk → Desk
clicked_on (some c) title inp d = record d {
  gui = win_close c d.gui;
  need_redraw = true;
  drag = none;
}
clicked_on none (some w) inp d = record d {
  gui = win_raise w d.gui;
  drag = some w;
  drag_dx = inp.mx - (d.gui.wins w).x;
  drag_dy = inp.my - (d.gui.wins w).y;
  need_redraw = true;
}
clicked_on none none inp d = d

unfoldable pub on_click : Input → Desk → Desk
on_click inp d =
    if inp.click
    then clicked_on (win_at_close inp.mx inp.my d.gui) (win_at_title inp.mx inp.my d.gui) inp d
    else d

unfoldable pub on_release : Input → Desk → Desk
on_release inp d = if inp.release then record d { drag = none } else d

-- what the dragging of window `i` comes to
unfoldable pub dragged : Option ℕ → Input → Desk → Desk
dragged none inp d = d
dragged (some i) inp d =
    let g = drag_to i inp.mx inp.my d.drag_dx d.drag_dy d.gui in
    if not ((g.wins i).x == (d.gui.wins i).x) || not ((g.wins i).y == (d.gui.wins i).y)
    then record d { gui = g; need_redraw = true }
    else d

unfoldable pub on_drag : Input → Desk → Desk
on_drag inp d = if inp.down then dragged d.drag inp d else d

-- the type of window that a letter opens
unfoldable pub key_window : ℕ → Option ℕ
key_window c =
    if c == b'c' || c == b'C'
    then some win_console
    else if c == b'a' || c == b'A'
    then some win_about
    else if c == b'm' || c == b'M'
    then some win_meminfo
    else if c == b't' || c == b'T'
    then some win_tasks
    else if c == b'f' || c == b'F'
    then some win_files
    else none

-- The loop of the tab key, with `n` rounds left, from the slot `i`; -1 counts as the last slot.
unfoldable pub next_window : ℕ → ℕ → Gui → ℕ
next_window zero i g = i
next_window (suc n) i g =
    let j = (i + 1) % max_win in let rest = next_window n j g in if (g.wins j).used then j else rest

-- how many of the first `n` windows are open
unfoldable pub count_open : ℕ → Gui → ℕ
count_open zero g = 0
count_open (suc n) g = if (g.wins n).used then count_open n g + 1 else count_open n g

unfoldable pub slot_of : Option ℕ → ℕ
slot_of none = max_win - 1
slot_of (some f) = f

unfoldable pub cycle_focus : Gui → Gui
cycle_focus g = win_raise (next_window max_win (slot_of g.focus) g) g

-- close the window that has the focus
unfoldable pub close_focus : Option ℕ → Gui → Gui
close_focus none g = g
close_focus (some f) g = win_close f g

unfoldable pub open_key : Option ℕ → Desk → Desk
open_key none d = d
open_key (some kind) d = record d { gui = (win_open kind d.gui).1; need_redraw = true }

unfoldable pub on_key : ℕ → Desk → Desk
on_key c d =
    if c == 0
    then d
    else if c == 27
    then record d { gui = close_focus d.gui.focus d.gui; need_redraw = true }
    else if c == 0x0D || c == 0x0A
    then record d { running = false }
    else if c == b'\t'
    then (if count_open max_win d.gui == 0
        then d
        else record d { gui = cycle_focus d.gui; need_redraw = true })
    else open_key (key_window c) d

-- in.mx != last_mx || in.my != last_my
unfoldable pub moved : Option (ℕ × ℕ) → ℕ → ℕ → Bool
moved none mx my = true
moved (some (x, y)) mx my = not (mx == x) || not (my == y)

-- a frame before it paints
unfoldable pub frame_input : Input → Mouse → Desk → Desk
frame_input inp m d =
    let d1 = on_drag inp (on_release inp (on_click inp (record d { mouse = m }))) in
    let (c, k) = keyboard_getc d1.keys in on_key c (record d1 { keys = k })

-- what happens while the desktop is up
pub data Event : Type 0 where
  mouse_irq : ℕ → Event
  key_irq : ℕ → Event
  frame : Event

module _ (font : List (List ℕ)) (r : Readings) where
  unfoldable pub paint : Input → Desk → Desk
  paint inp d =
      let fresh = d.need_redraw || moved d.last inp.mx inp.my in
      let base = if fresh then redraw_all font r d.gui d.screen else d.screen in
      record d {
        screen = draw_cursor inp.mx inp.my base;
        last = some (inp.mx, inp.my);
        need_redraw = false;
      }

  unfoldable pub gui_frame : Desk → Desk
  gui_frame d =
      let (inp, m) = snapshot d.mouse in
      let d1 = frame_input inp m d in
      let painted = paint inp d1 in if not d.running then d else if d1.running then painted else d1

  unfoldable pub gui_event : Event → Desk → Desk
  gui_event (mouse_irq b) d = record d { mouse = mouse_handler b d.mouse }
  gui_event (key_irq sc) d = record d { keys = keyboard_handler sc d.keys }
  gui_event frame d = gui_frame d

  unfoldable pub gui_run : List Event → Desk → Desk
  gui_run [] d = d
  gui_run (e ∷ es) d = gui_run es (gui_event e d)

-- What `gui_enter` does before its loop, on the windows that an earlier desktop left.
unfoldable pub gui_start : Mouse → Keyboard → Vga → Gui → Desk
gui_start m k v g =
    let closed = record g {
      wins = λ i. record (g.wins i) { used = false };
      focus = none;
      cascade = 0;
    } in
    let g1 = (win_open win_console closed).1 in
    let g2 = (win_open win_about g1).1 in
    record {
      gui = (win_open win_meminfo g2).1;
      mouse = m;
      keys = k;
      drag = none;
      drag_dx = 0;
      drag_dy = 0;
      last = none;
      need_redraw = true;
      screen = gfx_clear 0x00 v;
      running = true;
    }
