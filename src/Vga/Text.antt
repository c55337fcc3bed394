-- ===== src/Vga/Text.antt =====
-- The text page of kernel/vga.c.
use nova_kernel.Prelude.{
  ℕ, suc, ◌+◌, ◌-◌, ◌*◌, ◌<◌, ◌≤◌, ◌≡◌, refl, Bool, true, not, ◌&&◌, leb, ltb, ◌==◌, if◌then◌else◌,
  arith, Bool-cases, inl, inr, ◌∙◌, List, [], ◌∷◌, length, get_or,
}
use nova_kernel.Vga.{
  Vga, vga_width, vga_height, cell, vga_putc, vga_write, place, wrap_row, vga_scroll_once,
  vga_set_cursor,
}

-- the cursor is on the screen
pub record OnScreen (v : Vga) : Type 0 where
  pub x : v.tx < vga_width
  pub y : v.ty < vga_height

-- a character that is no newline, return, tab or backspace
abbrev pub is_plain : ℕ → Bool
is_plain c = not (c == 10) && not (c == 13) && not (c == 9) && not (c == 8)

abbrev pub AllPlain : List ℕ → Type 0
AllPlain [] = 0 ≤ 0
AllPlain (c ∷ cs) = (is_plain c ≡ true) × AllPlain cs

putc-plain :
    (c attr : ℕ) (v : Vga)
    → is_plain c ≡ true
    → v.tx + 1 < vga_width
    → v.ty < vga_height
    → ((vga_putc c attr v).tx ≡ v.tx + 1)
      × ((vga_putc c attr v).ty ≡ v.ty)
      × ((i : ℕ)
          → (vga_putc c attr v).cells i
            ≡ (if v.ty * vga_width + v.tx == i then cell attr c else v.cells i))
unfolding vga_putc place wrap_row vga_scroll_once vga_set_cursor
putc-plain c attr v p hx hy = (ground arith, ground arith, λ i. ground arith)

shift_row :
    (cs : List ℕ) (attr at at' i old : ℕ)
    → at' ≡ at + 1
    → (if leb at' i && ltb i (at' + length cs) then cell attr (get_or cs (i - at') 0) else old) ≡ (
        if leb (at + 1) i && ltb i (at + 1 + length cs)
        then cell attr (get_or cs (i - (at + 1)) 0)
        else old)
shift_row cs attr at at' i old e = rw (e) refl

-- the first character, and the others behind it
row_cells :
    (cs : List ℕ) (c attr at i : ℕ) (m m1 m2 : ℕ → ℕ)
    → m2 i ≡ (
        if leb (at + 1) i && ltb i (at + 1 + length cs)
        then cell attr (get_or cs (i - (at + 1)) 0)
        else m1 i)
    → m1 i ≡ (if at == i then cell attr c else m i)
    → m2 i ≡ (
        if leb at i && ltb i (at + length (c ∷ cs))
        then cell attr (get_or (c ∷ cs) (i - at) 0)
        else m i)
row_cells cs c attr at i m m1 m2 h2 h1 = elim (Bool-cases (at == i)) [
  | inl same ↦ let e : i - at ≡ 0 = ground arith in rw (e) (ground arith)
  | inr other ↦ elim (Bool-cases (leb at i)) [
    | inl behind ↦ let e : i - at ≡ suc (i - (at + 1)) = ground arith in rw (e) (ground arith)
    | inr before ↦ ground arith
  ]
]

-- Plain characters that fit into the rest of the row, on a screen whose cursor is above its end, are
-- written side by side from the cursor on; the cursor is behind the last, and every other cell is as
-- before.
pub vga_write-row :
    (cs : List ℕ) (attr : ℕ) (v : Vga)
    → AllPlain cs
    → v.tx + length cs < vga_width
    → v.ty < vga_height
    → ((vga_write cs attr v).tx ≡ v.tx + length cs)
      × ((vga_write cs attr v).ty ≡ v.ty)
      × ((i : ℕ)
          → (vga_write cs attr v).cells i ≡ (
              let at = v.ty * vga_width + v.tx in
              if leb at i && ltb i (at + length cs)
              then cell attr (get_or cs (i - at) 0)
              else v.cells i))
unfolding vga_write
vga_write-row [] attr v p hx hy = (omega arith, refl, λ i. ground arith)
vga_write-row (c ∷ cs) attr v (pc, ps) hx hy =
    let w = vga_putc c attr v in
    let one = putc-plain c attr v pc (omega arith) hy in
    let e1 = one.0 in
    let e2 = one.1 in
    let rest = vga_write-row cs attr w ps (omega arith) (omega arith) in
    let r0 = rest.0 in
    let r1 = rest.1 in
    (
      omega arith,
      r1 ∙ e2,
      λ i.
          row_cells cs c attr (v.ty * vga_width + v.tx) i v.cells w.cells
            (vga_write cs attr w).cells
            (rest.2 i
              ∙ (rw (e1, e2)
                  (shift_row cs attr (v.ty * vga_width + v.tx) (v.ty * vga_width + (v.tx + 1)) i
                    (w.cells i) (omega arith))))
            (one.2 i),
    )

putc-stuck : (c attr : ℕ) (v : Vga) → vga_height ≤ v.ty → vga_height ≤ (vga_putc c attr v).ty
unfolding vga_putc place wrap_row vga_scroll_once vga_set_cursor
putc-stuck c attr v h = ground arith

write-stuck :
    (cs : List ℕ) (attr : ℕ) (v : Vga) → vga_height ≤ v.ty → vga_height ≤ (vga_write cs attr v).ty
unfolding vga_write
write-stuck [] attr v h = h
write-stuck (c ∷ cs) attr v h = write-stuck cs attr (vga_putc c attr v) (putc-stuck c attr v h)

putc-behind :
    (c attr : ℕ) (v : Vga)
    → is_plain c ≡ true
    → vga_height ≤ v.ty
    → (vga_putc c attr v).cells (v.ty * vga_width + v.tx) ≡ cell attr c
unfolding vga_putc place wrap_row vga_scroll_once vga_set_cursor
putc-behind c attr v p h = ground arith

-- Once the row of the cursor is past the end of the screen it stays there: `vga_putc` scrolls the page
-- by a row but leaves `ty`. Whatever is written then, the next plain character goes to memory behind
-- the 2000 cells of the page.
pub vga_write-behind :
    (cs : List ℕ) (c attr : ℕ) (v : Vga)
    → vga_height ≤ v.ty
    → is_plain c ≡ true
    → (let w = vga_write cs attr v in
        (vga_height ≤ w.ty)
        × (vga_height * vga_width ≤ w.ty * vga_width + w.tx)
        × ((vga_putc c attr w).cells (w.ty * vga_width + w.tx) ≡ cell attr c))
vga_write-behind cs c attr v h p =
    let s = write-stuck cs attr v h in
    (s, omega arith, putc-behind c attr (vga_write cs attr v) p s)
