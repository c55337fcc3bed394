-- ===== src/Gui/Grip.antt =====
-- Dragging in kernel/gui.c: when it begins, and that letting the button go does not end it.
use nova_kernel.Prelude.{
  ℕ, ◌≡◌, refl, Bool, true, false, not, ◌&&◌, if◌then◌else◌, Option, none, some, arith, ◌∙◌, ap,
  List,
}
use nova_kernel.Mouse.{Mouse, left, mouse_left_clicked, mouse_left_released}
use nova_kernel.Gui.{win_at_close, win_at_title}
use nova_kernel.Gui.Draw.{Readings}
use nova_kernel.Gui.Loop.{
  Input, Desk, snapshot, clicked_on, on_click, on_release, dragged, on_drag, open_key, key_window,
  on_key, paint, frame_input, gui_frame,
}

-- What a frame does to the drag, by the button and the window under the mouse.
abbrev pub drag_after : Desk → Option ℕ
drag_after d =
    let m = d.mouse in
    if left m.buttons && not (left m.prev)
    then (elim (win_at_close m.x m.y d.gui) [
      | some k ↦ none
      | none ↦ elim (win_at_title m.x m.y d.gui) [ some w ↦ some w | none ↦ d.drag ]
    ])
    else d.drag

dragged-drag : (o : Option ℕ) (inp : Input) (d : Desk) → (dragged o inp d).drag ≡ d.drag
unfolding dragged
dragged-drag none inp d = refl
dragged-drag (some i) inp d = ground arith

open_key-drag : (o : Option ℕ) (d : Desk) → (open_key o d).drag ≡ d.drag
unfolding open_key
open_key-drag none d = refl
open_key-drag (some k) d = refl

on_key-drag : (c : ℕ) (d : Desk) → (on_key c d).drag ≡ d.drag
unfolding on_key
on_key-drag c d = let a = open_key-drag (key_window c) d in ground arith

on_drag-drag : (inp : Input) (d : Desk) → (on_drag inp d).drag ≡ d.drag
unfolding on_drag
on_drag-drag inp d = let a = dragged-drag d.drag inp d in ground arith

clicked_on-drag :
    (c t : Option ℕ) (inp : Input) (d : Desk)
    → (clicked_on c t inp d).drag
      ≡ (elim c [ some k ↦ none | none ↦ elim t [ some w ↦ some w | none ↦ d.drag ] ])
unfolding clicked_on
clicked_on-drag (some c) t inp d = refl
clicked_on-drag none (some w) inp d = refl
clicked_on-drag none none inp d = refl

-- In the snapshot of a frame a release is never seen.
snapshot-release : (m : Mouse) → (snapshot m).0.release ≡ false
unfolding snapshot mouse_left_clicked mouse_left_released
snapshot-release m = ground arith

on_release-drag : (inp : Input) (d : Desk) → inp.release ≡ false → (on_release inp d).drag ≡ d.drag
unfolding on_release
on_release-drag inp d unseen = rw (unseen) refl

-- the drag once the button has been looked at
abbrev gripped : Input → Desk → Option ℕ
gripped inp d =
    if inp.click
    then (elim (win_at_close inp.mx inp.my d.gui) [
      | some k ↦ none
      | none ↦ elim (win_at_title inp.mx inp.my d.gui) [ some w ↦ some w | none ↦ d.drag ]
    ])
    else d.drag

if-drag : (b : Bool) (x y : Desk) → (if b then x else y).drag ≡ (if b then x.drag else y.drag)
if-drag true x y = refl
if-drag false x y = refl

on_click-drag : (inp : Input) (d : Desk) → (on_click inp d).drag ≡ gripped inp d
unfolding on_click
on_click-drag inp d =
    if-drag inp.click _ d
    ∙ ap (λ o. if inp.click then o else d.drag)
        (clicked_on-drag (win_at_close inp.mx inp.my d.gui) (win_at_title inp.mx inp.my d.gui) inp
          d)

frame_input-drag :
    (inp : Input) (m : Mouse) (d : Desk)
    → inp.release ≡ false
    → (frame_input inp m d).drag ≡ gripped inp d
unfolding frame_input
frame_input-drag inp m d unseen =
    let d0 : Desk = record d { mouse = m } in
    on_key-drag _ _
    ∙ on_drag-drag inp (on_release inp (on_click inp d0))
    ∙ on_release-drag inp (on_click inp d0) unseen
    ∙ on_click-drag inp d0

either-drag :
    (b c : Bool) (x y z : Desk)
    → b ≡ true
    → y.drag ≡ z.drag
    → (if not b then x else if c then y else z).drag ≡ z.drag
either-drag false c x y z on e = absurd (ground arith)
either-drag true true x y z on e = e
either-drag true false x y z on e = refl

gripped-snapshot : (d : Desk) → gripped (snapshot d.mouse).0 d ≡ drag_after d
unfolding snapshot mouse_left_clicked mouse_left_released
gripped-snapshot d = refl

-- A frame of the running desktop begins a drag by a click on a title bar and ends one only by a click
-- on a close box: with no click the drag is as it was, also when the button has been let go.
pub gui_frame-drag :
    (font : List (List ℕ)) (r : Readings) (d : Desk)
    → d.running ≡ true
    → (gui_frame font r d).drag ≡ drag_after d
unfolding gui_frame paint
gui_frame-drag font r d on =
    let inp = (snapshot d.mouse).0 in
    let d1 = frame_input inp (snapshot d.mouse).1 d in
    either-drag d.running d1.running d (paint font r inp d1) d1 on refl
    ∙ frame_input-drag inp (snapshot d.mouse).1 d (snapshot-release d.mouse)
    ∙ gripped-snapshot d
