-- ===== src/Gui/Desktop.antt =====
-- The windows of kernel/gui.c on the desktop.
use nova_kernel.Prelude.{
  ℕ, ◌+◌, ◌≤◌, ◌≡◌, refl, true, not, ◌||◌, leb, ◌==◌, Option, none, some, arith, Bool-cases, inl,
  inr,
}
use nova_kernel.Gui.{
  Window, Gui, max_win, desktop_h, open_in, focus_on, unfocus, win_raise, win_open, win_close,
  drag_to,
}
use nova_kernel.Vga.{gfx_w}

-- a window inside the screen, above the taskbar
abbrev pub Inside : Window → Type 0
Inside w = (w.x + w.w ≤ gfx_w) × (w.y + w.h ≤ desktop_h)

abbrev pub OnDesktop : Gui → Type 0
OnDesktop g = (i : ℕ) → (g.wins i).used ≡ true → Inside (g.wins i)

module _ (g : Gui) (ok : OnDesktop g) where
  drag_to-OnDesktop : (i mx my dx dy : ℕ) → OnDesktop (drag_to i mx my dx dy g)
  unfolding drag_to
  drag_to-OnDesktop i mx my dx dy k used =
      let still : (g.wins k).used ≡ true = ground arith in
      let a = ok k still in
      elim (Bool-cases (i == k)) [
        | inl same ↦
            let e : i ≡ k = ground arith in
            let a0 = a.0 in let a1 = a.1 in (ground arith, ground arith)
        | inr other ↦ rw (other) a
      ]

-- Raising and closing move no window.
record SamePlaces (g g' : Gui) : Type 0 where
  pub used : (i : ℕ) → (g'.wins i).used ≡ true → (g.wins i).used ≡ true
  pub x : (i : ℕ) → (g'.wins i).x ≡ (g.wins i).x
  pub y : (i : ℕ) → (g'.wins i).y ≡ (g.wins i).y
  pub w : (i : ℕ) → (g'.wins i).w ≡ (g.wins i).w
  pub h : (i : ℕ) → (g'.wins i).h ≡ (g.wins i).h

SamePlaces-OnDesktop : {g g' : Gui} → SamePlaces g g' → OnDesktop g → OnDesktop g'
SamePlaces-OnDesktop s ok i used = rw (s.x i, s.y i, s.w i, s.h i) (ok i (s.used i used))

win_raise-SamePlaces :
    (idx : ℕ) (g : Gui) (f : Option ℕ) → g.focus ≡ f → SamePlaces g (win_raise idx g)
unfolding win_raise unfocus
win_raise-SamePlaces idx g none e = rw (e) (record {
  used = λ i h. ground arith;
  x = λ i. ground arith;
  y = λ i. ground arith;
  w = λ i. ground arith;
  h = λ i. ground arith;
})
win_raise-SamePlaces idx g (some f) e = rw (e) (record {
  used = λ i h. ground arith;
  x = λ i. ground arith;
  y = λ i. ground arith;
  w = λ i. ground arith;
  h = λ i. ground arith;
})

focus_on-SamePlaces : (r : Option ℕ) (g : Gui) → SamePlaces g (focus_on r g)
unfolding focus_on
focus_on-SamePlaces none g = record {
  used = λ i h. h;
  x = λ i. refl;
  y = λ i. refl;
  w = λ i. refl;
  h = λ i. refl;
}
focus_on-SamePlaces (some f) g = record {
  used = λ i h. ground arith;
  x = λ i. ground arith;
  y = λ i. ground arith;
  w = λ i. ground arith;
  h = λ i. ground arith;
}

win_close-OnDesktop : (idx : ℕ) (g : Gui) → OnDesktop g → OnDesktop (win_close idx g)
unfolding win_close
win_close-OnDesktop idx g ok = elim (Bool-cases (leb max_win idx || not (g.wins idx).used)) [
  | inl refused ↦ rw (refused) ok
  | inr fine ↦ rw (fine) (
      SamePlaces-OnDesktop (focus_on-SamePlaces _ _) (λ i used.
        let still : (g.wins i).used ≡ true = ground arith in
        let a = ok i still in let a0 = a.0 in let a1 = a.1 in (ground arith, ground arith)))
]

open_in-OnDesktop :
    (kind : ℕ) (g : Gui) (r : Option ℕ) → OnDesktop g → OnDesktop (open_in kind g r).1
unfolding open_in
open_in-OnDesktop kind g none ok = ok
open_in-OnDesktop kind g (some i) ok =
    SamePlaces-OnDesktop (win_raise-SamePlaces i _ g.focus refl) (λ k used.
      elim (Bool-cases (i == k)) [
        | inl same ↦ (ground arith, ground arith)
        | inr other ↦ rw (other) (ok k (ground arith))
      ])

-- Raising, opening, closing and dragging keep every open window inside the desktop, wherever the
-- mouse is and at whatever offset a window was taken.
pub windows-OnDesktop :
    (idx kind mx my dx dy : ℕ) (g : Gui)
    → OnDesktop g
    → OnDesktop (win_raise idx g)
      × OnDesktop (win_open kind g).1
      × OnDesktop (win_close idx g)
      × OnDesktop (drag_to idx mx my dx dy g)
unfolding win_open
windows-OnDesktop idx kind mx my dx dy g ok = (
  SamePlaces-OnDesktop (win_raise-SamePlaces idx g g.focus refl) ok,
  open_in-OnDesktop kind g _ ok,
  win_close-OnDesktop idx g ok,
  drag_to-OnDesktop g ok idx mx my dx dy,
)
