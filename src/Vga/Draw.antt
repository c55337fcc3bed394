-- ===== src/Vga/Draw.antt =====
-- Characters in mode 13h, kernel/vga.c.
use nova_kernel.Prelude.{
  ℕ, ◌+◌, ◌-◌, ◌*◌, ◌<◌, ◌≤◌, ◌≡◌, refl, Bool, false, ◌&&◌, ◌||◌, leb, ltb, ◌==◌, if◌then◌else◌,
  arith, Bool-cases, inl, inr, ◌∙◌, sym, ap, List, for_range, for_range_inv,
}
use nova_kernel.Vga.{Vga, gfx_w, gfx_h, gfx_putpixel, gfx_drawchar, glyph_bit}

unfoldable pub colour : List (List ℕ) → ℕ → ℕ → ℕ → ℕ → ℕ → ℕ
colour font c fg bg row col = if glyph_bit font c row col then fg else bg

module _ (font : List (List ℕ)) (x y c fg bg : ℕ) (right : x + 8 ≤ gfx_w) (low : y + 8 ≤ gfx_h)
    (f0 : ℕ → ℕ) where
  -- the pixel at `px`, `py` once the rows above `row`, and of that row the columns below `col`, are drawn
  abbrev drawn : ℕ → ℕ → ℕ → ℕ → ℕ
  drawn row col px py =
      if leb x px
        && ltb px (x + 8)
        && leb y py
        && ltb py (y + 8)
        && (ltb py (y + row) || (py == y + row && ltb px (x + col)))
      then colour font c fg bg (py - y) (px - x)
      else f0 (py * gfx_w + px)

  abbrev Drawn : ℕ → ℕ → Vga → Type 0
  Drawn row col v = (px py : ℕ) → px < gfx_w → v.fb (py * gfx_w + px) ≡ drawn row col px py

  drawn_next :
      (row col px py : ℕ)
      → (px == x + col && py == y + row) ≡ false
      → drawn row col px py ≡ drawn row (col + 1) px py
  drawn_next row col px py other =
      ap
        (λ (b : Bool).
          if leb x px && ltb px (x + 8) && leb y py && ltb py (y + 8) && b
          then colour font c fg bg (py - y) (px - x)
          else f0 (py * gfx_w + px))
        (cells row col px py other)
    where
      cells :
          (row col px py : ℕ)
          → (px == x + col && py == y + row) ≡ false
          → (ltb py (y + row) || (py == y + row && ltb px (x + col)))
            ≡ (ltb py (y + row) || (py == y + row && ltb px (x + (col + 1))))
      cells row col px py other = ground arith

  pixel-Drawn :
      (row col : ℕ) (v : Vga)
      → row < 8
      → col < 8
      → Drawn row col v
      → Drawn row (col + 1) (gfx_putpixel (x + col) (y + row) (colour font c fg bg row col) v)
  unfolding gfx_putpixel
  pixel-Drawn row col v hr hc d px py lt =
      let inside : leb gfx_w (x + col) || leb gfx_h (y + row) ≡ false = ground arith in
      let h = d px py lt in
      rw (inside) (elim (Bool-cases (px == x + col && py == y + row)) [
        | inl same ↦
            let e1 : px ≡ x + col = ground arith in
            let e2 : py ≡ y + row = ground arith in
            let s1 : y + row - y ≡ row = omega arith in
            let s2 : x + col - x ≡ col = omega arith in rw (e1, e2, s1, s2) (ground arith)
        | inr other ↦
            let ne : (y + row) * gfx_w + (x + col) == py * gfx_w + px ≡ false = ground arith in
            rw (ne) (h ∙ drawn_next row col px py other)
      ])

  -- a whole row is the beginning of the next
  row-Drawn : (row : ℕ) (v : Vga) → Drawn row 8 v → Drawn (row + 1) 0 v
  row-Drawn row v d px py lt = d px py lt ∙ (elim (Bool-cases (leb x px && ltb px (x + 8))) [
    | inl inside ↦ ground arith
    | inr outside ↦ rw (outside)
  ])

  -- before the first pixel
  not_yet : (px py : ℕ) → f0 (py * gfx_w + px) ≡ drawn 0 0 px py
  not_yet px py =
      let nowhere : (leb x px
            && ltb px (x + 8)
            && leb y py
            && ltb py (y + 8)
            && (ltb py (y + 0) || (py == y + 0 && ltb px (x + 0))))
          ≡ false =
        ground arith in
      ap (λ b. if b then colour font c fg bg (py - y) (px - x) else f0 (py * gfx_w + px))
        (sym nowhere)

  glyph-Drawn : (v : Vga) → v.fb ≡ f0 → Drawn 8 0 (gfx_drawchar font x y c fg bg v)
  unfolding gfx_drawchar colour
  glyph-Drawn v e =
      for_range_inv (λ row w. Drawn row 0 w)
        (λ row w.
          for_range 8 0
            (λ col u.
              gfx_putpixel (x + col) (y + row) (if glyph_bit font c row col then fg else bg) u)
            w)
        0 8 8 v (omega arith)
        (λ row w lo hi d.
          row-Drawn row
            (for_range 8 0
              (λ col u.
                gfx_putpixel (x + col) (y + row) (if glyph_bit font c row col then fg else bg) u)
              w)
            (for_range_inv (λ col u. Drawn row col u)
              (λ col u.
                gfx_putpixel (x + col) (y + row) (if glyph_bit font c row col then fg else bg) u)
              0 8 8 w (omega arith) (λ col u lo' hi' d'. pixel-Drawn row col u hi hi' d') d))
        (λ px py lt. ap (λ (f : ℕ → ℕ). f (py * gfx_w + px)) e ∙ not_yet px py)

-- A character that is drawn inside the screen has each pixel of its eight rows and columns in the
-- foreground colour where the font has a bit and in the background colour elsewhere, and no other
-- pixel of the screen changes.
pub gfx_drawchar-glyph :
    (font : List (List ℕ)) (x y c fg bg : ℕ) (v : Vga)
    → x + 8 ≤ gfx_w
    → y + 8 ≤ gfx_h
    → (px py : ℕ) → px < gfx_w
    → (gfx_drawchar font x y c fg bg v).fb (py * gfx_w + px) ≡ (
        if leb x px && ltb px (x + 8) && leb y py && ltb py (y + 8)
        then (if glyph_bit font c (py - y) (px - x) then fg else bg)
        else v.fb (py * gfx_w + px))
unfolding colour
gfx_drawchar-glyph font x y c fg bg v right low px py lt =
    glyph-Drawn font x y c fg bg right low v.fb v refl px py lt
    ∙ ap
        (λ b.
          if b
          then (if glyph_bit font c (py - y) (px - x) then fg else bg)
          else v.fb (py * gfx_w + px))
        whole
  where
    whole :
        (leb x px
          && ltb px (x + 8)
          && leb y py
          && ltb py (y + 8)
          && (ltb py (y + 8) || (py == y + 8 && ltb px (x + 0))))
        ≡ (leb x px && ltb px (x + 8) && leb y py && ltb py (y + 8))
    whole = ground arith
