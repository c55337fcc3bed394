-- ===== src/Gui/Focus.antt =====
-- The focus of kernel/gui.c.
use nova_kernel.Prelude.{
  ℕ, zero, suc, ◌+◌, ◌<◌, ◌≤◌, ◌≡◌, refl, Bool, true, false, not, ◌||◌, leb, ◌==◌, Option, none,
  some, arith, Bool-cases, inl, inr, ◌∙◌, sym, subst,
}
use nova_kernel.Gui.{
  Gui, max_win, last_below, first_from, open_in, focus_on, unfocus, set_focused, win_raise,
  win_open, win_close,
}

-- A window that has the focus is open and marked, and without one no window is open.
unfoldable pub HasFocus : Gui → Option ℕ → Type 0
HasFocus g none = (i : ℕ) → i < max_win → (g.wins i).used ≡ false
HasFocus g (some f) = (f < max_win) × ((g.wins f).used ≡ true) × ((g.wins f).focused ≡ true)

abbrev pub FocusOk : Gui → Type 0
FocusOk g = HasFocus g g.focus

-- a search from the top finds the last that passes, or none does
pub LastOk : ℕ → (ℕ → Bool) → Option ℕ → Type 0
LastOk n test none = (i : ℕ) → i < n → test i ≡ false
LastOk n test (some i) = (i < n) × (test i ≡ true)

widen :
    (n : ℕ) (test : ℕ → Bool) (r : Option ℕ)
    → test n ≡ false
    → LastOk n test r
    → LastOk (suc n) test r
unfolding LastOk
widen n test none miss h = λ i lt. elim (Bool-cases (i == n)) [
  | inl same ↦ let e : i ≡ n = ground arith in rw (e) miss
  | inr other ↦ h i (ground arith)
]
widen n test (some i) miss h = (omega (arith, h.0), h.1)

last_below-LastOk : (n : ℕ) (test : ℕ → Bool) → LastOk n test (last_below n test)
unfolding last_below LastOk
last_below-LastOk zero test = λ i h. absurd (omega arith)
last_below-LastOk (suc n) test = elim (Bool-cases (test n)) [
  | inl hit ↦ rw (hit) (omega arith, hit)
  | inr miss ↦ rw (miss) (widen n test (last_below n test) miss (last_below-LastOk n test))
]

raised :
    (idx : ℕ) (g g' : Gui)
    → idx < max_win
    → (g'.wins idx).used ≡ true
    → FocusOk (set_focused idx true (record g' { focus = some idx }))
unfolding HasFocus
raised idx g g' lt used = (lt, ground arith, ground arith)

unfocus_used :
    (f : Option ℕ) (idx i : ℕ) (g : Gui) → ((unfocus f idx g).wins i).used ≡ (g.wins i).used
unfolding unfocus
unfocus_used none idx i g = refl
unfocus_used (some f) idx i g = ground arith

raise-FocusOk :
    (idx : ℕ) (g : Gui) → idx < max_win → (g.wins idx).used ≡ true → FocusOk (win_raise idx g)
unfolding win_raise
raise-FocusOk idx g lt used =
    let go : leb max_win idx ≡ false = ground arith in
    rw (go, used) (raised idx g (unfocus g.focus idx g) lt (unfocus_used g.focus idx idx g ∙ used))

raise_refused :
    (idx : ℕ) (g : Gui) → (leb max_win idx || not (g.wins idx).used) ≡ true → win_raise idx g ≡ g
unfolding win_raise
raise_refused idx g h = rw (h)

raise_any : (idx : ℕ) (g : Gui) → FocusOk g → FocusOk (win_raise idx g)
raise_any idx g ok = elim (Bool-cases (leb max_win idx || not (g.wins idx).used)) [
  | inl refused ↦ subst FocusOk (sym (raise_refused idx g refused)) ok
  | inr fine ↦ raise-FocusOk idx g (ground arith) (ground arith)
]

-- a search from the bottom stays below its end
Below : ℕ → Option ℕ → Type 0
Below n none = 0 ≤ n
Below n (some i) = i < n

first_from-Below :
    (n at : ℕ) (test : ℕ → Bool) (e : ℕ) → at + n ≡ e → Below e (first_from n at test)
unfolding first_from Below
first_from-Below zero at test e h = omega arith
first_from-Below (suc n) at test e h = elim (Bool-cases (test at)) [
  | inl hit ↦ rw (hit) (omega arith)
  | inr miss ↦ rw (miss) (first_from-Below n (at + 1) test e (omega arith))
]

open_in-FocusOk :
    (kind : ℕ) (g : Gui) (r : Option ℕ) → FocusOk g → Below max_win r → FocusOk (open_in kind g r).1
unfolding open_in Below
open_in-FocusOk kind g none ok h = ok
open_in-FocusOk kind g (some i) ok h = raise-FocusOk i _ h (ground arith)

focus_on-FocusOk :
    (r : Option ℕ) (g : Gui) → LastOk max_win (λ i. (g.wins i).used) r → FocusOk (focus_on r g)
unfolding focus_on LastOk HasFocus
focus_on-FocusOk none g h = h
focus_on-FocusOk (some i) g h = (h.0, ground arith, ground arith)

close-FocusOk : (idx : ℕ) (g : Gui) → FocusOk g → FocusOk (win_close idx g)
unfolding win_close
close-FocusOk idx g ok = elim (Bool-cases (leb max_win idx || not (g.wins idx).used)) [
  | inl refused ↦ rw (refused) ok
  | inr fine ↦ rw (fine) (focus_on-FocusOk _ _ (last_below-LastOk max_win _))
]

-- Raising, opening and closing a window, whichever window it is and whether or not it can be done,
-- keep the focus right: the window that has it is open and marked, and there is one as long as a
-- window is open.
pub windows-FocusOk :
    (idx kind : ℕ) (g : Gui)
    → FocusOk g
    → FocusOk (win_raise idx g) × FocusOk (win_open kind g).1 × FocusOk (win_close idx g)
unfolding win_open
windows-FocusOk idx kind g ok = (
  raise_any idx g ok,
  open_in-FocusOk kind g _ ok (first_from-Below max_win 0 _ max_win (omega arith)),
  close-FocusOk idx g ok,
)
