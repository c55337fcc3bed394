-- ===== src/Gui/Session.antt =====
-- What the whole loop of kernel/gui.c keeps of the windows.
use nova_kernel.Prelude.{
  ℕ, ◌≡◌, refl, Bool, true, false, not, ◌||◌, ◌==◌, if◌then◌else◌, Option, none, some, List, [],
  ◌∷◌, arith, update,
}
use nova_kernel.Gui.{Gui, Window, max_win, win_raise, win_open, win_close, drag_to}
use nova_kernel.Gui.Draw.{Readings}
use nova_kernel.Gui.Focus.{FocusOk, HasFocus, windows-FocusOk}
use nova_kernel.Gui.Desktop.{OnDesktop, windows-OnDesktop}
use nova_kernel.Mouse.{Mouse}
use nova_kernel.Keyboard.{Keyboard, keyboard_getc}
use nova_kernel.Vga.{Vga}
use nova_kernel.Gui.Loop.{
  Input, Desk, Event, mouse_irq, key_irq, frame, snapshot, clicked_on, on_click, on_release,
  dragged, on_drag, key_window, cycle_focus, count_open, close_focus, open_key, on_key, paint,
  frame_input, gui_frame, gui_event, gui_run, gui_start,
}

-- a property of the windows that everything the loop does to them keeps
record Stable (P : Gui → Type 0) : Type 0 where
  raise : (i : ℕ) (g : Gui) → P g → P (win_raise i g)
  opens : (kind : ℕ) (g : Gui) → P g → P (win_open kind g).1
  close : (i : ℕ) (g : Gui) → P g → P (win_close i g)
  drag : (i mx my dx dy : ℕ) (g : Gui) → P g → P (drag_to i mx my dx dy g)

module _ (P : Gui → Type 0) (s : Stable P) where
  if_keeps : (b : Bool) (x y : Desk) → P x.gui → P y.gui → P (if b then x else y).gui
  if_keeps true x y p q = p
  if_keeps false x y p q = q

  click_keeps : (c t : Option ℕ) (inp : Input) (d : Desk) → P d.gui → P (clicked_on c t inp d).gui
  unfolding clicked_on
  click_keeps (some c) t inp d p = s.close c d.gui p
  click_keeps none (some w) inp d p = s.raise w d.gui p
  click_keeps none none inp d p = p

  dragged_keeps : (o : Option ℕ) (inp : Input) (d : Desk) → P d.gui → P (dragged o inp d).gui
  unfolding dragged
  dragged_keeps none inp d p = p
  dragged_keeps (some i) inp d p =
      let g = drag_to i inp.mx inp.my d.drag_dx d.drag_dy d.gui in
      let moved_to : Desk = record d { gui = g; need_redraw = true } in
      if_keeps (not ((g.wins i).x == (d.gui.wins i).x) || not ((g.wins i).y == (d.gui.wins i).y))
        moved_to d (s.drag i inp.mx inp.my d.drag_dx d.drag_dy d.gui p) p

  close_keeps : (o : Option ℕ) (g : Gui) → P g → P (close_focus o g)
  unfolding close_focus
  close_keeps none g p = p
  close_keeps (some f) g p = s.close f g p

  open_keeps : (o : Option ℕ) (d : Desk) → P d.gui → P (open_key o d).gui
  unfolding open_key
  open_keeps none d p = p
  open_keeps (some kind) d p = s.opens kind d.gui p

  key_keeps : (c : ℕ) (d : Desk) → P d.gui → P (on_key c d).gui
  unfolding on_key cycle_focus
  key_keeps c d p =
      let closed : Desk = record d { gui = close_focus d.gui.focus d.gui; need_redraw = true } in
      let left : Desk = record d { running = false } in
      let cycled : Desk = record d { gui = cycle_focus d.gui; need_redraw = true } in
      if_keeps (c == 0) d _ p (
        if_keeps (c == 27) closed _ (close_keeps d.gui.focus d.gui p) (
          if_keeps (c == 0x0D || c == 0x0A) left _ p (
            if_keeps (c == b'\t') _ _
              (if_keeps (count_open max_win d.gui == 0) d cycled p (s.raise _ d.gui p))
              (open_keeps (key_window c) d p))))

  input_keeps : (inp : Input) (m : Mouse) (d : Desk) → P d.gui → P (frame_input inp m d).gui
  unfolding frame_input on_click on_release on_drag
  input_keeps inp m d p =
      let d0 : Desk = record d { mouse = m } in
      let d1 = on_click inp d0 in
      let d2 = on_release inp d1 in
      let d3 = on_drag inp d2 in
      let d4 : Desk = record d3 { keys = (keyboard_getc d3.keys).1 } in
      let dropped : Desk = record d1 { drag = none } in
      let p1 : P d1.gui = if_keeps inp.click _ d0 (click_keeps _ _ inp d0 p) p in
      let p2 : P d2.gui = if_keeps inp.release dropped d1 p1 p1 in
      let p3 : P d3.gui = if_keeps inp.down _ d2 (dragged_keeps d2.drag inp d2 p2) p2 in
      key_keeps (keyboard_getc d3.keys).0 d4 p3

  module _ (font : List (List ℕ)) (r : Readings) where
    event_keeps : (e : Event) (d : Desk) → P d.gui → P (gui_event font r e d).gui
    unfolding gui_event gui_frame paint
    event_keeps (mouse_irq b) d p = p
    event_keeps (key_irq sc) d p = p
    event_keeps frame d p =
        let inp = (snapshot d.mouse).0 in
        let d1 = frame_input inp (snapshot d.mouse).1 d in
        let p1 = input_keeps inp (snapshot d.mouse).1 d p in
        if_keeps (not d.running) d _ p (if_keeps d1.running (paint font r inp d1) d1 p1 p1)

    run_keeps : (es : List Event) (d : Desk) → P d.gui → P (gui_run font r es d).gui
    unfolding gui_run
    run_keeps [] d p = p
    run_keeps (e ∷ es) d p = run_keeps es (gui_event font r e d) (event_keeps e d p)

  start_keeps :
      (m : Mouse) (k : Keyboard) (v : Vga) (g : Gui)
      → P (record g { wins = λ i. record (g.wins i) { used = false }; focus = none; cascade = 0 })
      → P (gui_start m k v g).gui
  unfolding gui_start
  start_keeps m k v g p = s.opens _ _ (s.opens _ _ (s.opens _ _ p))

moved-HasFocus :
    (g : Gui) (i : ℕ) (w : Window) (o : Option ℕ)
    → w.used ≡ (g.wins i).used
    → w.focused ≡ (g.wins i).focused
    → HasFocus g o
    → HasFocus (record g { wins = update g.wins i w }) o
unfolding HasFocus
moved-HasFocus g i w none u f h = λ k lt. let a = h k lt in ground arith
moved-HasFocus g i w (some k) u f h =
    let a = h.1 in let b = h.2 in (h.0, ground arith, ground arith)

FocusOk-Stable : Stable FocusOk
unfolding drag_to
FocusOk-Stable = record {
  raise = λ i g p. (windows-FocusOk i 0 g p).0;
  opens = λ kind g p. (windows-FocusOk 0 kind g p).1;
  close = λ i g p. (windows-FocusOk i 0 g p).2;
  drag = λ i mx my dx dy g p. moved-HasFocus g i _ g.focus refl refl p;
}

OnDesktop-Stable : Stable OnDesktop
OnDesktop-Stable = record {
  raise = λ i g p. (windows-OnDesktop i 0 0 0 0 0 g p).0;
  opens = λ kind g p. (windows-OnDesktop 0 kind 0 0 0 0 g p).1;
  close = λ i g p. (windows-OnDesktop i 0 0 0 0 0 g p).2;
  drag = λ i mx my dx dy g p. (windows-OnDesktop i 0 mx my dx dy g p).3;
}

-- From the start of the desktop, on whatever windows an earlier one has left, after any frames with
-- any interrupts of the mouse and of the keyboard between them, the window that has the focus is open
-- and marked, there is one as long as a window is open, and every open window is inside the desktop.
pub gui_run-Usable :
    (font : List (List ℕ)) (r : Readings) (es : List Event) (m : Mouse) (k : Keyboard) (v : Vga)
    (g : Gui)
    → (let d = gui_run font r es (gui_start m k v g) in FocusOk d.gui × OnDesktop d.gui)
unfolding HasFocus
gui_run-Usable font r es m k v g = (
  run_keeps FocusOk FocusOk-Stable font r es (gui_start m k v g)
      (start_keeps FocusOk FocusOk-Stable m k v g (λ i lt. refl)),
  run_keeps OnDesktop OnDesktop-Stable font r es (gui_start m k v g)
      (start_keeps OnDesktop OnDesktop-Stable m k v g (λ i used. absurd (ground arith))),
)
