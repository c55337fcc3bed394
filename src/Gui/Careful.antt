-- ===== src/Gui/Careful.antt =====
-- A part of a frame of kernel/gui.c that changes what shows asks for a repaint.
use nova_kernel.Prelude.{
  ℕ, ◌≡◌, refl, Bool, true, false, not, ◌||◌, ◌==◌, if◌then◌else◌, Option, none, some, ◌∙◌,
}
use nova_kernel.Gui.{max_win, drag_to}
use nova_kernel.Mouse.{Mouse}
use nova_kernel.Keyboard.{keyboard_getc}
use nova_kernel.Gui.Loop.{
  Input, Desk, frame_input, on_click, on_release, on_drag, on_key, clicked_on, dragged, open_key,
  key_window, close_focus, cycle_focus, count_open,
}

-- What a part of a frame that does not ask for a repaint leaves alone.
pub record Left (d d' : Desk) : Type 0 where
  pub gui : d'.gui ≡ d.gui
  pub last : d'.last ≡ d.last
  pub screen : d'.screen ≡ d.screen
  pub redraw : d'.need_redraw ≡ d.need_redraw

-- A part of a frame asks for a repaint or changes nothing that shows.
pub data Careful (d d' : Desk) : Type 0 where
  due : d'.need_redraw ≡ true → Careful d d'
  kept : Left d d' → Careful d d'

untouched : (d : Desk) → Left d d
untouched d = record { gui = refl; last = refl; screen = refl; redraw = refl }

then-Careful : {d d' d'' : Desk} → Careful d d' → Careful d' d'' → Careful d d''
then-Careful a (due h) = due h
then-Careful (due h) (kept b) = due (b.redraw ∙ h)
then-Careful (kept a) (kept b) = kept (record {
  gui = b.gui ∙ a.gui;
  last = b.last ∙ a.last;
  screen = b.screen ∙ a.screen;
  redraw = b.redraw ∙ a.redraw;
})

clicked-Careful : (c t : Option ℕ) (inp : Input) (d : Desk) → Careful d (clicked_on c t inp d)
unfolding clicked_on
clicked-Careful (some c) t inp d = due refl
clicked-Careful none (some w) inp d = due refl
clicked-Careful none none inp d = kept (untouched d)

if_Careful : (b : Bool) (d x y : Desk) → Careful d x → Careful d y → Careful d (if b then x else y)
if_Careful true d x y p q = p
if_Careful false d x y p q = q

dragged-Careful : (o : Option ℕ) (inp : Input) (d : Desk) → Careful d (dragged o inp d)
unfolding dragged
dragged-Careful none inp d = kept (untouched d)
dragged-Careful (some i) inp d =
    let g = drag_to i inp.mx inp.my d.drag_dx d.drag_dy d.gui in
    let moved_to : Desk = record d { gui = g; need_redraw = true } in
    if_Careful (not ((g.wins i).x == (d.gui.wins i).x) || not ((g.wins i).y == (d.gui.wins i).y)) d
      moved_to d (due refl) (kept (untouched d))

open-Careful : (o : Option ℕ) (d : Desk) → Careful d (open_key o d)
unfolding open_key
open-Careful none d = kept (untouched d)
open-Careful (some k) d = due refl

key-Careful : (c : ℕ) (d : Desk) → Careful d (on_key c d)
unfolding on_key
key-Careful c d =
    let closed : Desk = record d { gui = close_focus d.gui.focus d.gui; need_redraw = true } in
    let left : Desk = record d { running = false } in
    let cycled : Desk = record d { gui = cycle_focus d.gui; need_redraw = true } in
    if_Careful (c == 0) d d _ (kept (untouched d)) (
      if_Careful (c == 27) d closed _ (due refl) (
        if_Careful (c == 0x0D || c == 0x0A) d left _
          (kept (record { gui = refl; last = refl; screen = refl; redraw = refl }))
          (if_Careful (c == b'\t') d _ _
            (if_Careful (count_open max_win d.gui == 0) d d cycled (kept (untouched d)) (due refl))
            (open-Careful (key_window c) d))))

click-Careful : (inp : Input) (d : Desk) → Careful d (on_click inp d)
unfolding on_click
click-Careful inp d = if_Careful _ d _ _ (clicked-Careful _ _ inp d) (kept (untouched d))

release-Careful : (inp : Input) (d : Desk) → Careful d (on_release inp d)
unfolding on_release
release-Careful inp d =
    let dropped : Desk = record d { drag = none } in
    if_Careful inp.release d dropped d
      (kept (record { gui = refl; last = refl; screen = refl; redraw = refl })) (kept (untouched d))

drag-Careful : (inp : Input) (d : Desk) → Careful d (on_drag inp d)
unfolding on_drag
drag-Careful inp d = if_Careful _ d _ _ (dragged-Careful d.drag inp d) (kept (untouched d))

pub input-Careful : (inp : Input) (m : Mouse) (d : Desk) → Careful d (frame_input inp m d)
unfolding frame_input
input-Careful inp m d =
    let d0 : Desk = record d { mouse = m } in
    let d1 = on_click inp d0 in
    let d2 = on_release inp d1 in
    let d3 = on_drag inp d2 in
    let d4 : Desk = record d3 { keys = (keyboard_getc d3.keys).1 } in
    then-Careful {d' = d0} (kept (record { gui = refl; last = refl; screen = refl; redraw = refl }))
      (then-Careful (click-Careful inp d0) (
        then-Careful (release-Careful inp d1) (
          then-Careful (drag-Careful inp d2) (
            then-Careful {d' = d4}
              (kept (record { gui = refl; last = refl; screen = refl; redraw = refl }))
              (key-Careful _ d4)))))
