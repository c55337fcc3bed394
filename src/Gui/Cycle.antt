-- ===== src/Gui/Cycle.antt =====
-- The tab key in kernel/gui.c: the focus goes round the open windows.
use native.Mathlib.Nat.{mod-add-mod, add-mod_right, mod-eq_of_lt, mod-lt}
use nova_kernel.Prelude.{
  ℕ, zero, suc, ◌+◌, ◌-◌, ◌%◌, ◌<◌, ◌≤◌, ◌≡◌, refl, true, false, ◌==◌, leb, inl, inr, Bool-cases,
  Option, some, arith, ◌∙◌, sym, ap, subst,
}
use nova_kernel.Gui.{Gui, max_win, win_raise}
use nova_kernel.Gui.Focus.{FocusOk, HasFocus}
use nova_kernel.Gui.Loop.{next_window, slot_of, cycle_focus}

-- The slot `r` is the first open one after `i`, going round, and it is `n` slots on at most.
pub record NextOpen (n i : ℕ) (g : Gui) (r : ℕ) : Type 0 where
  pub steps : ℕ
  pub lo : 1 ≤ steps
  pub hi : steps ≤ n
  pub place : r ≡ (i + steps) % max_win
  pub used : (g.wins r).used ≡ true
  pub skipped : (e : ℕ) → 1 ≤ e → e < steps → (g.wins ((i + e) % max_win)).used ≡ false

one_on : (i e : ℕ) → 1 ≤ e → ((i + 1) % max_win + (e - 1)) % max_win ≡ (i + e) % max_win
one_on i e h =
    let r : i + 1 + (e - 1) ≡ i + e = omega arith in
    mod-add-mod (i + 1) max_win (e - 1) ∙ ap (λ x. x % max_win) r

NextOpen-step :
    (n i : ℕ) (g : Gui) (r : ℕ)
    → (g.wins ((i + 1) % max_win)).used ≡ false
    → NextOpen n ((i + 1) % max_win) g r
    → NextOpen (suc n) i g r
NextOpen-step n i g r off o = record {
  steps = o.steps + 1;
  lo = omega arith;
  hi = let h = o.hi in omega arith;
  place =
      o.place
      ∙ (let s : o.steps + 1 - 1 ≡ o.steps = omega arith in
          ap (λ x. ((i + 1) % max_win + x) % max_win) (sym s)
          ∙ one_on i (o.steps + 1) (omega arith));
  used = o.used;
  skipped = λ e a b. elim (Bool-cases (e == 1)) [
    | inl first ↦
        let q : e ≡ 1 = ground arith in
        subst (λ x. (g.wins ((i + x) % max_win)).used ≡ false) (sym q) off
    | inr later ↦
        subst (λ x. (g.wins x).used ≡ false) (one_on i e a)
          (o.skipped (e - 1) (ground arith) (omega arith))
  ];
}

later_one :
    (i e : ℕ) (g : Gui)
    → 1 ≤ e
    → (g.wins ((i + 1) % max_win)).used ≡ false
    → (g.wins ((i + e) % max_win)).used ≡ true
    → 1 ≤ e - 1
later_one i e g lo off on = elim (Bool-cases (e == 1)) [
  | inl first ↦
      let q : e ≡ 1 = ground arith in
      let on' = subst (λ x. (g.wins ((i + x) % max_win)).used ≡ true) q on in absurd (ground arith)
  | inr later ↦ ground arith
]

next_window-NextOpen :
    (n i e : ℕ) (g : Gui)
    → 1 ≤ e
    → e ≤ n
    → (g.wins ((i + e) % max_win)).used ≡ true
    → NextOpen n i g (next_window n i g)
unfolding next_window
next_window-NextOpen zero i e g lo hi on = absurd (omega arith)
next_window-NextOpen (suc n) i e g lo hi on = elim (Bool-cases (g.wins ((i + 1) % max_win)).used) [
  | inl open_one ↦ rw (open_one) (record {
    steps = 1;
    lo = omega arith;
    hi = omega arith;
    place = refl;
    used = open_one;
    skipped = λ k a b. absurd (omega arith);
  })
  | inr off ↦ rw (off) (
      NextOpen-step n i g _ off (
        next_window-NextOpen n ((i + 1) % max_win) (e - 1) g (later_one i e g lo off on)
          (omega arith) (ap (λ x. (g.wins x).used) (one_on i e lo) ∙ on)))
]

raised_focus :
    (r : ℕ) (g : Gui) → r < max_win → (g.wins r).used ≡ true → (win_raise r g).focus ≡ some r
unfolding win_raise
raised_focus r g lt used = let go : leb max_win r ≡ false = ground arith in rw (go, used) refl

at_slot : (f : ℕ) (g : Gui) (o : Option ℕ) → HasFocus g o → o ≡ some f → HasFocus g (some f)
at_slot f g o h e = subst (HasFocus g) e h

NextOpen-lt : {n i r : ℕ} {g : Gui} → NextOpen n i g r → r < max_win
NextOpen-lt {i = i} o = subst (λ x. x < max_win) (sym o.place) (mod-lt (i + o.steps) (omega arith))

-- With the focus right and on the window `f`, the tab key gives the focus to the first open window
-- after it, going round the slots; that is `f` itself if no other is open.
pub cycle_focus-NextOpen :
    (f : ℕ) (g : Gui)
    → FocusOk g
    → g.focus ≡ some f
    → (r : ℕ) × NextOpen max_win f g r × ((cycle_focus g).focus ≡ some r)
unfolding cycle_focus slot_of HasFocus
cycle_focus-NextOpen f g ok e =
    let here = at_slot f g g.focus ok e in
    let round : (f + max_win) % max_win ≡ f = add-mod_right f max_win ∙ mod-eq_of_lt here.0 in
    let o =
      next_window-NextOpen max_win f max_win g (omega arith) (omega arith)
        (ap (λ x. (g.wins x).used) round ∙ here.1) in
    (
      next_window max_win f g,
      o,
      ap (λ x. (win_raise (next_window max_win (slot_of x) g) g).focus) e
          ∙ raised_focus (next_window max_win f g) g (NextOpen-lt o) o.used,
    )
