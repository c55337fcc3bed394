-- ===== src/Gui/Paint.antt =====
-- What stands on the screen while the desktop of kernel/gui.c is up.
use nova_kernel.Prelude.{
  ℕ, zero, suc, ◌+◌, ◌-◌, ◌*◌, ◌%◌, ◌<◌, ◌≡◌, refl, not, ◌&&◌, ltb, if◌then◌else◌, Option, none,
  some, List, [], ◌∷◌, arith, get_or, codes,
}
use nova_kernel.Vga.{Vga, gfx_w, gfx_h, gfx_clear}
use nova_kernel.Vga.Overlay.{
  Overlay, id-Overlay, then-Overlay, if-Overlay, for_range-Overlay, gfx_putpixel-Overlay,
  gfx_fillrect-Overlay, gfx_drawchar-Overlay, gfx_drawstring-Overlay, Overlay-same,
}
use nova_kernel.Gui.{Window, Gui, max_win, title_h}
use nova_kernel.Gui.Draw.{
  Readings, taskbar_h, draw_title, win_title, win_draw_frame, draw_lines, content, win_draw_content,
  draw_window, draw_buttons, has_focus, draw_taskbar, draw_grid, draw_focused, draw_desktop,
  redraw_all, draw_cursor,
}

module _ (font : List (List ℕ)) where
  draw_title-Overlay : (s : List ℕ) (tx y last bg : ℕ) → Overlay (draw_title font s tx y last bg)
  unfolding draw_title
  draw_title-Overlay [] tx y last bg = id-Overlay
  draw_title-Overlay (c ∷ cs) tx y last bg =
      if-Overlay (ltb tx last)
        (then-Overlay (gfx_drawchar-Overlay font tx y c 0x0F bg)
          (draw_title-Overlay cs (tx + 8) y last bg))
        id-Overlay

  frame-Overlay : (w : Window) → Overlay (win_draw_frame font w)
  unfolding win_draw_frame
  frame-Overlay w =
      then-Overlay
        (then-Overlay
          (then-Overlay
            (then-Overlay
              (then-Overlay
                (then-Overlay
                  (then-Overlay
                    (then-Overlay (gfx_fillrect-Overlay _ _ _ _ _) (gfx_fillrect-Overlay _ _ _ _ _))
                    (gfx_fillrect-Overlay _ _ _ _ _))
                  (gfx_fillrect-Overlay _ _ _ _ _))
                (gfx_fillrect-Overlay _ _ _ _ _))
              (gfx_fillrect-Overlay _ _ _ _ _))
            (draw_title-Overlay (win_title w.kind) _ _ _ _))
          (gfx_fillrect-Overlay _ _ _ _ _))
        (gfx_drawchar-Overlay font _ _ _ _ _)

  draw_lines-Overlay :
      (cx cy : ℕ) (ls : List (ℕ × ℕ × List ℕ × ℕ)) → Overlay (draw_lines font cx cy ls)
  unfolding draw_lines
  draw_lines-Overlay cx cy [] = id-Overlay
  draw_lines-Overlay cx cy ((dx, dy, text, fg) ∷ rest) =
      then-Overlay (gfx_drawstring-Overlay font text (cx + dx) (cy + dy) fg 0x07)
        (draw_lines-Overlay cx cy rest)

  window-Overlay : (r : Readings) (w : Window) → Overlay (draw_window font r w)
  unfolding draw_window win_draw_content
  window-Overlay r w =
      then-Overlay (frame-Overlay w)
        (draw_lines-Overlay (w.x + 6) (w.y + title_h + 5) (content w.kind r))

  buttons-Overlay : (n i bx : ℕ) (g : Gui) → Overlay (draw_buttons font n i bx g)
  unfolding draw_buttons
  buttons-Overlay zero i bx g = id-Overlay
  buttons-Overlay (suc n) i bx g =
      let w = g.wins i in
      let bg = if has_focus g i then 0x09 else 0x08 in
      let button =
        then-Overlay
          (gfx_fillrect-Overlay (bx - 2) (gfx_h - taskbar_h + 1) (bx + 42) (gfx_h - 2) bg)
          (gfx_drawchar-Overlay font (bx + 16) (gfx_h - 10) (get_or (win_title w.kind) 0 0) 0x0F
            bg) in
      if-Overlay (w.used && ltb (gfx_w - 50) (bx + 46)) button (
        then-Overlay (if-Overlay w.used button id-Overlay)
          (buttons-Overlay n (i + 1) (if w.used then bx + 46 else bx) g))

  taskbar-Overlay : (g : Gui) → Overlay (draw_taskbar font g)
  unfolding draw_taskbar
  taskbar-Overlay g =
      then-Overlay
        (then-Overlay (gfx_fillrect-Overlay _ _ _ _ _)
          (gfx_drawstring-Overlay font (codes "NovaOS") 4 (gfx_h - 10) 0x0A 0x00))
        (buttons-Overlay max_win 0 60 g)

  grid-Overlay : Overlay draw_grid
  unfolding draw_grid
  grid-Overlay = for_range-Overlay _ _ _ (λ row.
      for_range-Overlay _ _ _
        (λ col. gfx_putpixel-Overlay (row % 2 * 8 + col * 16) (row * 16) 0x09))

  focused-Overlay :
      (r : Readings) (g : Gui) (f : Option ℕ) → g.focus ≡ f → Overlay (draw_focused font r g)
  unfolding draw_focused
  focused-Overlay r g none e = rw (e) id-Overlay
  focused-Overlay r g (some f) e =
      rw (e) (if-Overlay (g.wins f).used (window-Overlay r (g.wins f)) id-Overlay)

  desktop-Overlay : (r : Readings) (g : Gui) → Overlay (draw_desktop font r g)
  unfolding draw_desktop
  desktop-Overlay r g =
      then-Overlay
        (then-Overlay
          (then-Overlay grid-Overlay (
            for_range-Overlay _ max_win 0 (λ i.
              if-Overlay ((g.wins i).used && not (has_focus g i)) (window-Overlay r (g.wins i))
                id-Overlay)))
          (focused-Overlay r g g.focus refl))
        (taskbar-Overlay g)

pub cursor-Overlay : (x y : ℕ) → Overlay (draw_cursor x y)
unfolding draw_cursor
cursor-Overlay x y =
    then-Overlay
      (then-Overlay (for_range-Overlay _ 7 0 (λ i. gfx_putpixel-Overlay x (y + i) 0x0F))
        (for_range-Overlay _ 5 0 (λ i. gfx_putpixel-Overlay (x + i) (y + 2 + i) 0x0F)))
      (for_range-Overlay _ 3 0 (λ i. gfx_putpixel-Overlay (x + i) (y + 6 - i) 0x0F))

cleared :
    (v w : Vga) (i : ℕ) → i < gfx_w * gfx_h → (gfx_clear 0x01 v).fb i ≡ (gfx_clear 0x01 w).fb i
unfolding gfx_clear
cleared v w i lt = ground arith

-- what is on the screen is painted anew, whatever was there
pub redraw_all-same :
    (font : List (List ℕ)) (r : Readings) (g : Gui) (v w : Vga) (i : ℕ)
    → i < gfx_w * gfx_h
    → (redraw_all font r g v).fb i ≡ (redraw_all font r g w).fb i
unfolding redraw_all
redraw_all-same font r g v w i lt =
    Overlay-same (gfx_clear 0x01 v) (gfx_clear 0x01 w) i (desktop-Overlay font r g)
      (cleared v w i lt)
