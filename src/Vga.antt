-- ===== src/Vga.antt =====
-- The screen of kernel/vga.c: the text page with its cursor, and the drawing in mode 13h. The cells
-- of the text page and the pixels are functions from the index; an index past the 2000 cells of the
-- text page is memory behind it. Coordinates are native numbers. The registers of the mode switch
-- and of the palette are hardware setup.
pub mod Font
pub mod Text
pub mod Draw
pub mod Overlay
use nova_kernel.Prelude.{
  ℕ, zero, suc, ◌+◌, ◌-◌, ◌*◌, ◌/◌, ◌%◌, Bool, true, false, not, ◌&&◌, ltb, leb, ◌==◌,
  if◌then◌else◌, update, List, [], ◌∷◌, for_range, get_or, min, ◌||◌,
}
use nova_kernel.Prelude.Bytes.{test_bit}

abbrev pub vga_width : ℕ
vga_width = 80

abbrev pub vga_height : ℕ
vga_height = 25

abbrev pub gfx_w : ℕ
gfx_w = 320

abbrev pub gfx_h : ℕ
gfx_h = 200

-- `cursor` is what the hardware shows; `fb` is the frame buffer of mode 13h.
pub record Vga : Type 0 where
  pub cells : ℕ → ℕ
  pub tx : ℕ
  pub ty : ℕ
  pub cur_attr : ℕ
  pub cursor : ℕ
  pub fb : ℕ → ℕ

-- (attr << 8) | c
abbrev pub cell : ℕ → ℕ → ℕ
cell attr c = attr % 256 * 256 + c % 256

unfoldable pub vga_set_cursor : ℕ → ℕ → Vga → Vga
vga_set_cursor x y v = record v { cursor = (y * vga_width + x) % 65536 }

unfoldable pub vga_clear : ℕ → Vga → Vga
vga_clear attr v = record v {
  cells = λ i. if ltb i (vga_width * vga_height) then cell attr 32 else v.cells i;
}

unfoldable pub vga_init : Vga → Vga
vga_init v = vga_set_cursor 0 0 (record (vga_clear 0x0F v) { tx = 0; ty = 0; cur_attr = 0x0F })

-- Every row takes the cells of the row below, and the last row is blank.
unfoldable pub vga_scroll_once : Vga → Vga
vga_scroll_once v = record v {
  cells = λ i.
      if ltb i ((vga_height - 1) * vga_width)
      then v.cells (i + vga_width)
      else if ltb i (vga_height * vga_width)
      then cell v.cur_attr 32
      else v.cells i;
}

unfoldable pub vga_scroll : Vga → Vga
vga_scroll v =
    vga_set_cursor 0 (vga_height - 1) (record (vga_scroll_once v) { ty = vga_height - 1; tx = 0 })

-- What the character itself does, before the ends of the row and of the screen are looked at.
unfoldable pub place : ℕ → ℕ → Vga → Vga
place c attr v0 =
    let v = record v0 { cur_attr = attr } in
    if c == 10
    then record v { ty = v.ty + 1; tx = 0 }
    else if c == 13
    then record v { tx = 0 }
    else if c == 9
    then record v { tx = (v.tx + 4) / 4 * 4 }
    else if c == 8
    then record v { tx = v.tx - 1 }
    else record v { cells = update v.cells (v.ty * vga_width + v.tx) (cell attr c); tx = v.tx + 1 }

unfoldable pub wrap_row : Vga → Vga
wrap_row v = if leb vga_width v.tx then record v { tx = 0; ty = v.ty + 1 } else v

unfoldable pub vga_putc : ℕ → ℕ → Vga → Vga
vga_putc c attr v =
    let w = wrap_row (place c attr v) in
    let s = if leb vga_height w.ty then vga_scroll_once w else w in vga_set_cursor s.tx s.ty s

unfoldable pub vga_write : List ℕ → ℕ → Vga → Vga
vga_write [] attr v = v
vga_write (c ∷ cs) attr v = vga_write cs attr (vga_putc c attr v)

unfoldable pub gfx_putpixel : ℕ → ℕ → ℕ → Vga → Vga
gfx_putpixel x y color v =
    if leb gfx_w x || leb gfx_h y then v else record v { fb = update v.fb (y * gfx_w + x) color }

-- The loops run while the row and the column are on the screen.
unfoldable pub gfx_fillrect : ℕ → ℕ → ℕ → ℕ → ℕ → Vga → Vga
gfx_fillrect x0 y0 x1 y1 color v =
    for_range (min (y1 + 1) gfx_h - y0) y0
      (λ y w.
        for_range (min (x1 + 1) gfx_w - x0) x0
          (λ x u. record u { fb = update u.fb (y * gfx_w + x) color }) w)
      v

-- glyph[row] & (1 << col)
abbrev pub glyph_bit : List (List ℕ) → ℕ → ℕ → ℕ → Bool
glyph_bit font c row col = test_bit (get_or (get_or font (c % 128) []) row 0) col

-- Every pixel of the eight rows and columns, in the colour of its bit.
unfoldable pub gfx_drawchar : List (List ℕ) → ℕ → ℕ → ℕ → ℕ → ℕ → Vga → Vga
gfx_drawchar font x y c fg bg v =
    for_range 8 0
      (λ row w.
        for_range 8 0
          (λ col u.
            gfx_putpixel (x + col) (y + row) (if glyph_bit font c row col then fg else bg) u)
          w)
      v

unfoldable pub gfx_drawstring : List (List ℕ) → ℕ → ℕ → List ℕ → ℕ → ℕ → Vga → Vga
gfx_drawstring font x y [] fg bg v = v
gfx_drawstring font x y (c ∷ cs) fg bg v =
    gfx_drawstring font (x + 8) y cs fg bg (gfx_drawchar font x y c fg bg v)

unfoldable pub gfx_clear : ℕ → Vga → Vga
gfx_clear color v = record v { fb = λ i. if ltb i (gfx_w * gfx_h) then color % 256 else v.fb i }
