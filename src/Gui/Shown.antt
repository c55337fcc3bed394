-- ===== src/Gui/Shown.antt =====
-- The screen follows the windows of kernel/gui.c, frame by frame.
use nova_kernel.Prelude.{
  ℕ, ◌*◌, ◌<◌, ◌≡◌, refl, Bool, true, false, not, ◌||◌, ◌⊎◌, inl, inr, Bool-cases, if◌then◌else◌,
  Option, some, List, [], ◌∷◌, arith, ◌∙◌, sym, subst,
}
use nova_kernel.Vga.{Vga, gfx_w, gfx_h}
use nova_kernel.Vga.Overlay.{Overlay-same, Overlay-again}
use nova_kernel.Gui.{Gui}
use nova_kernel.Mouse.{Mouse, mouse_left_clicked, mouse_left_released}
use nova_kernel.Keyboard.{Keyboard}
use nova_kernel.Gui.Draw.{Readings, redraw_all, draw_cursor}
use nova_kernel.Gui.Paint.{cursor-Overlay, redraw_all-same}
use nova_kernel.Gui.Loop.{
  Input, Desk, Event, gui_event, gui_run, gui_frame, paint, frame_input, snapshot, gui_start,
  mouse_irq, key_irq, frame, moved,
}
use nova_kernel.Gui.Careful.{Careful, due, kept, input-Careful}

at_rest :
    (l : Option (ℕ × ℕ)) (mx my x y : ℕ)
    → l ≡ some (x, y)
    → moved l mx my ≡ false
    → (mx ≡ x) × (my ≡ y)
unfolding moved
at_rest l mx my x y e still =
    let h : moved (some (x, y)) mx my ≡ false = subst (λ o. moved o mx my ≡ false) e still in
    (ground arith, ground arith)

module _ (font : List (List ℕ)) (r : Readings) where
  -- The screen shows the windows and the cursor as if they were drawn on any other screen.
  pub Shows : Gui → ℕ → ℕ → Vga → Type 0
  Shows g x y v =
      (w : Vga) (i : ℕ)
      → i < gfx_w * gfx_h
      → v.fb i ≡ (draw_cursor x y (redraw_all font r g w)).fb i

  -- a repaint is due, or the screen shows what it should, with the cursor of the last frame
  pub Current : Desk → Type 0
  Current d =
      (d.need_redraw ≡ true)
      ⊎ ((x : ℕ) × (y : ℕ) × (d.last ≡ some (x, y)) × Shows d.gui x y d.screen)

  repaint-Shows :
      (g : Gui) (x y : ℕ) (v : Vga) → Shows g x y (draw_cursor x y (redraw_all font r g v))
  unfolding Shows
  repaint-Shows g x y v w i lt =
      Overlay-same (redraw_all font r g v) (redraw_all font r g w) i (cursor-Overlay x y)
        (redraw_all-same font r g v w i lt)

  cursor_again-Shows :
      (g : Gui) (x y : ℕ) (v : Vga) → Shows g x y v → Shows g x y (draw_cursor x y v)
  unfolding Shows
  cursor_again-Shows g x y v s w i lt =
      Overlay-same v (draw_cursor x y (redraw_all font r g w)) i (cursor-Overlay x y) (s w i lt)
      ∙ Overlay-again (redraw_all font r g w) i (cursor-Overlay x y)

  placed :
      (inp : Input) (d : Desk)
      → (d.need_redraw || moved d.last inp.mx inp.my) ≡ false
      → Current d
      → Shows d.gui inp.mx inp.my d.screen
  unfolding Current
  placed inp d still (inl h) = absurd (ground arith)
  placed inp d still (inr (x, y, e, s)) =
      let at = at_rest d.last inp.mx inp.my x y e (ground arith) in
      subst (λ a. Shows d.gui a inp.my d.screen) (sym at.0)
        (subst (λ b. Shows d.gui x b d.screen) (sym at.1) s)

  paint-Shows :
      (inp : Input) (d : Desk) → Current d → Shows d.gui inp.mx inp.my (paint font r inp d).screen
  unfolding paint Current
  paint-Shows inp d c = elim (Bool-cases (d.need_redraw || moved d.last inp.mx inp.my)) [
    | inl fresh ↦ rw (fresh) (repaint-Shows d.gui inp.mx inp.my d.screen)
    | inr still ↦
        rw (still) (cursor_again-Shows d.gui inp.mx inp.my d.screen (placed inp d still c))
  ]

  Careful-Current : {d d' : Desk} → Careful d d' → Current d → Current d'
  unfolding Current
  Careful-Current (due h) c = inl h
  Careful-Current (kept l) (inl h) = inl (l.redraw ∙ h)
  Careful-Current (kept l) (inr (x, y, e, s)) = inr (x, y, l.last ∙ e, rw (l.gui, l.screen) s)

  paint-Current : (inp : Input) (d : Desk) → Current d → Current (paint font r inp d)
  unfolding Current paint
  paint-Current inp d c = inr (inp.mx, inp.my, refl, paint-Shows inp d c)

  if_Current : (b : Bool) (x y : Desk) → Current x → Current y → Current (if b then x else y)
  if_Current true x y p q = p
  if_Current false x y p q = q

  frame-Current : (d : Desk) → Current d → Current (gui_frame font r d)
  unfolding gui_frame
  frame-Current d c =
      let inp = (snapshot d.mouse).0 in
      let d1 = frame_input inp (snapshot d.mouse).1 d in
      let c1 = Careful-Current (input-Careful inp (snapshot d.mouse).1 d) c in
      if_Current (not d.running) d _ c
        (if_Current d1.running (paint font r inp d1) d1 (paint-Current inp d1 c1) c1)

  event-Current : (e : Event) (d : Desk) → Current d → Current (gui_event font r e d)
  unfolding gui_event Current
  event-Current (mouse_irq b) d c = c
  event-Current (key_irq sc) d c = c
  event-Current frame d c = frame-Current d c

  run-Current : (es : List Event) (d : Desk) → Current d → Current (gui_run font r es d)
  unfolding gui_run
  run-Current [] d c = c
  run-Current (e ∷ es) d c = run-Current es (gui_event font r e d) (event-Current e d c)

  snapshot_at :
      (m : Mouse) (g : Gui) (v : Vga)
      → Shows g (snapshot m).0.mx (snapshot m).0.my v
      → Shows g m.x m.y v
  unfolding snapshot mouse_left_clicked mouse_left_released
  snapshot_at m g v s = s

  picked :
      (b c : Bool) (x y z : Desk)
      → x.running ≡ b
      → z.running ≡ c
      → (if not b then x else if c then y else z).running ≡ true
      → (if not b then x else if c then y else z) ≡ y
  picked true true x y z p q on = refl
  picked true false x y z p q on = absurd (ground arith)
  picked false c x y z p q on = absurd (ground arith)

  frame-Shows :
      (d : Desk)
      → Current d
      → (gui_frame font r d).running ≡ true
      → Shows (gui_frame font r d).gui d.mouse.x d.mouse.y (gui_frame font r d).screen
  unfolding gui_frame paint
  frame-Shows d c on =
      let inp = (snapshot d.mouse).0 in
      let d1 = frame_input inp (snapshot d.mouse).1 d in
      let c1 = Careful-Current (input-Careful inp (snapshot d.mouse).1 d) c in
      let e = picked d.running d1.running d (paint font r inp d1) d1 refl refl on in
      subst (λ t. Shows t.gui d.mouse.x d.mouse.y t.screen) (sym e)
        (snapshot_at d.mouse _ _ (paint-Shows inp d1 c1))

  -- From the start of the desktop, after any frames with any interrupts of the mouse and of the
  -- keyboard between them, a frame that goes on leaves on the screen what drawing the windows and
  -- the cursor on any other screen leaves there: nothing is out of date, and the cursor has no trail.
  -- The numbers that the windows show of the rest of the kernel are the same throughout.
  pub gui_frame-Shows :
      (es : List Event) (m : Mouse) (k : Keyboard) (v : Vga) (g : Gui)
      → (gui_frame font r (gui_run font r es (gui_start m k v g))).running ≡ true
      → (let d = gui_run font r es (gui_start m k v g) in
          Shows (gui_frame font r d).gui d.mouse.x d.mouse.y (gui_frame font r d).screen)
  unfolding gui_start Current
  gui_frame-Shows es m k v g on = frame-Shows _ (run-Current es (gui_start m k v g) (inl refl)) on
