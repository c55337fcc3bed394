-- ===== src/Vga/Overlay.antt =====
-- What the drawing of kernel/vga.c has in common: whether a drawing paints a cell of the frame
-- buffer, and with which colour, does not depend on what was there.
use nova_kernel.Prelude.{
  ℕ, ◌+◌, ◌*◌, ◌≡◌, refl, Bool, true, false, ◌||◌, leb, ◌==◌, if◌then◌else◌, Option, none, some,
  List, [], ◌∷◌, for_range, for_range_ind, update, arith, ◌∙◌, sym, ap,
}
use nova_kernel.Vga.{
  Vga, gfx_w, gfx_h, gfx_putpixel, gfx_fillrect, gfx_drawchar, gfx_drawstring, glyph_bit,
}

-- a colour on top of what is there
unfoldable pub over : Option ℕ → ℕ → ℕ
over none below = below
over (some c) below = c

pub record Overlay (f : Vga → Vga) : Type 0 where
  pub top : ℕ → Option ℕ
  pub paints : (i : ℕ) (v : Vga) → (f v).fb i ≡ over (top i) (v.fb i)

pub id-Overlay : Overlay (λ v. v)
unfolding over
id-Overlay = record { top = λ i. none; paints = λ i v. refl }

abbrev above : Option ℕ → Option ℕ → Option ℕ
above below none = below
above below (some c) = some c

over-over : (o p : Option ℕ) (x : ℕ) → over p (over o x) ≡ over (above o p) x
unfolding over
over-over o none x = refl
over-over o (some c) x = refl

pub then-Overlay : {f g : Vga → Vga} → Overlay f → Overlay g → Overlay (λ v. g (f v))
then-Overlay {f = f} a b = record {
  top = λ i. above (a.top i) (b.top i);
  paints = λ i v.
      b.paints i (f v)
      ∙ ap (over (b.top i)) (a.paints i v)
      ∙ over-over (a.top i) (b.top i) (v.fb i);
}

pub if-Overlay :
    {f g : Vga → Vga} (b : Bool) → Overlay f → Overlay g → Overlay (λ v. if b then f v else g v)
if-Overlay true a b = a
if-Overlay false a b = b

pub for_range-Overlay :
    (step : ℕ → Vga → Vga) (rounds first : ℕ)
    → ((k : ℕ) → Overlay (step k))
    → Overlay (for_range rounds first step)
for_range-Overlay step rounds first h =
    for_range_ind Overlay step rounds first id-Overlay (λ k f o. then-Overlay o (h k))

-- one cell of the frame buffer
cell-Overlay : (at color : ℕ) → Overlay (λ v. record v { fb = update v.fb at color })
unfolding over
cell-Overlay at color = record {
  top = λ i. if at == i then some color else none;
  paints = λ i v. ground arith;
}

pub gfx_putpixel-Overlay : (x y color : ℕ) → Overlay (gfx_putpixel x y color)
unfolding gfx_putpixel
gfx_putpixel-Overlay x y color =
    if-Overlay (leb gfx_w x || leb gfx_h y) id-Overlay (cell-Overlay (y * gfx_w + x) color)

pub gfx_fillrect-Overlay : (x0 y0 x1 y1 color : ℕ) → Overlay (gfx_fillrect x0 y0 x1 y1 color)
unfolding gfx_fillrect
gfx_fillrect-Overlay x0 y0 x1 y1 color =
    for_range-Overlay _ _ _ (λ y. for_range-Overlay _ _ _ (λ x. cell-Overlay (y * gfx_w + x) color))

module _ (font : List (List ℕ)) where
  pub gfx_drawchar-Overlay : (x y c fg bg : ℕ) → Overlay (gfx_drawchar font x y c fg bg)
  unfolding gfx_drawchar
  gfx_drawchar-Overlay x y c fg bg = for_range-Overlay _ _ _ (λ row. for_range-Overlay _ _ _ (λ col.
      gfx_putpixel-Overlay (x + col) (y + row) (if glyph_bit font c row col then fg else bg)))

  pub gfx_drawstring-Overlay :
      (s : List ℕ) (x y fg bg : ℕ) → Overlay (gfx_drawstring font x y s fg bg)
  unfolding gfx_drawstring
  gfx_drawstring-Overlay [] x y fg bg = id-Overlay
  gfx_drawstring-Overlay (c ∷ cs) x y fg bg =
      then-Overlay (gfx_drawchar-Overlay x y c fg bg) (gfx_drawstring-Overlay cs (x + 8) y fg bg)

-- a drawing on two frame buffers that agree at a cell leaves them so
pub Overlay-same :
    {f : Vga → Vga} (v w : Vga) (i : ℕ) → Overlay f → v.fb i ≡ w.fb i → (f v).fb i ≡ (f w).fb i
Overlay-same v w i o e = o.paints i v ∙ ap (over (o.top i)) e ∙ sym (o.paints i w)

over_again : (o : Option ℕ) (x : ℕ) → over o (over o x) ≡ over o x
unfolding over
over_again none x = refl
over_again (some c) x = refl

-- and a second time changes nothing
pub Overlay-again : {f : Vga → Vga} (v : Vga) (i : ℕ) → Overlay f → (f (f v)).fb i ≡ (f v).fb i
Overlay-again {f = f} v i o =
    o.paints i (f v)
    ∙ ap (over (o.top i)) (o.paints i v)
    ∙ over_again (o.top i) (v.fb i)
    ∙ sym (o.paints i v)
