-- ===== src/Shell/History.antt =====
-- The history of kernel/shell.c as a list of commands, the most recent first.
use nova_kernel.Prelude.{
  ℕ, zero, suc, ◌+◌, ◌-◌, ◌^◌, ◌%◌, ◌<◌, ◌≤◌, ◌≡◌, refl, true, false, ◌||◌, leb, ltb, ◌==◌,
  if◌then◌else◌, arith, List, [], ◌∷◌, length, take, ◌∙◌, ap, Bool-cases, inl, inr, none, some,
  get_elem?, get_or, update,
}
use nova_kernel.Prelude.Words.{add32}
use nova_kernel.Shell.{Shell, is_nil, str_eq, remember, hist_get, hist_max}
use nova_kernel.Shell.Join.{take-short}

-- What entering a command makes of the list.
abbrev pub recall : List ℕ → List (List ℕ) → List (List ℕ)
recall cmd [] = if is_nil cmd then [] else cmd ∷ []
recall cmd (x ∷ r) = if is_nil cmd || str_eq x cmd then x ∷ r else cmd ∷ x ∷ r

-- The ring holds the commands of the list, the last eight of them.
pub record Recent (l : List (List ℕ)) (s : Shell) : Type 0 where
  pub counted : s.hist_count ≡ length l
  pub held :
      (back : ℕ)
      → back < hist_max
      → back < length l
      → s.hist ((length l - 1 - back) % hist_max) ≡ get_or l back []

-- the ring after a command that is kept
push-Recent :
    (cmd : List ℕ) (l : List (List ℕ)) (s : Shell)
    → length cmd ≤ 127
    → length l + 1 < 2 ^ 32
    → Recent l s
    → (back : ℕ) → back < hist_max
    → back < length l + 1
    → update s.hist (s.hist_count % hist_max) (take 127 cmd) ((length l + 1 - 1 - back) % hist_max)
      ≡ get_or (cmd ∷ l) back []
push-Recent cmd l s short few r zero lt lt' =
    let ct = r.counted in
    let same : s.hist_count % 8 ≡ (length l + 1 - 1 - 0) % 8 = omega arith in
    let hit : (s.hist_count % 8 == (length l + 1 - 1 - 0) % 8) ≡ true = ground arith in
    rw (hit) (take-short 127 cmd short)
push-Recent cmd l s short few r (suc back) lt lt' =
    let ct = r.counted in
    let miss : (s.hist_count % 8 == (length l + 1 - 1 - suc back) % 8) ≡ false = ground arith in
    let e : length l + 1 - 1 - suc back ≡ length l - 1 - back = omega arith in
    rw (miss, e) (r.held back (omega arith) (omega arith))

get_elem?-take :
    (l : List (List ℕ)) (n i : ℕ)
    → get_elem? (take n l) i ≡ (if leb n i || leb (length l) i then none else some (get_or l i []))
get_elem?-take l zero i = ground arith
get_elem?-take [] (suc n) i = ground arith
get_elem?-take (x ∷ l) (suc n) zero = ground arith
get_elem?-take (x ∷ l) (suc n) (suc i) = let h = get_elem?-take l n i in ground arith

kept-Recent :
    (cmd : List ℕ) (l : List (List ℕ)) (s : Shell)
    → length cmd ≤ 127
    → length l + 1 < 2 ^ 32
    → Recent l s
    → Recent (cmd ∷ l) (record s {
      hist = update s.hist (s.hist_count % hist_max) (take 127 cmd);
      hist_count = add32 s.hist_count 1;
      hist_pos = none;
    })
kept-Recent cmd l s short few r = record {
  counted = let ct = r.counted in omega arith;
  held = λ back lt lt'.
      let e : suc (length l) - 1 - back ≡ length l + 1 - 1 - back = omega arith in
      ap (λ k. update s.hist (s.hist_count % hist_max) (take 127 cmd) (k % hist_max)) e
      ∙ push-Recent cmd l s short few r back lt (omega arith);
}

remember-Recent :
    (cmd : List ℕ) (l : List (List ℕ)) (s : Shell)
    → length cmd ≤ 127
    → length l + 1 < 2 ^ 32
    → Recent l s
    → Recent (recall cmd l) (remember cmd s)
unfolding remember
remember-Recent cmd [] s short few r =
    let ct = r.counted in
    let none_yet : ltb 0 s.hist_count ≡ false = ground arith in
    elim (Bool-cases (is_nil cmd)) [
      | inl e ↦ rw (e) r
      | inr e ↦ rw (e, none_yet) (kept-Recent cmd [] s short few r)
    ]
remember-Recent cmd (x ∷ l) s short few r =
    let ct = r.counted in
    let some_yet : ltb 0 s.hist_count ≡ true = ground arith in
    let i : s.hist_count - 1 ≡ length (x ∷ l) - 1 - 0 = omega arith in
    let newest : s.hist ((s.hist_count - 1) % 8) ≡ x =
      ap (λ k. s.hist (k % 8)) i ∙ r.held 0 (omega arith) (omega arith) in
    elim (Bool-cases (is_nil cmd)) [
      | inl e ↦ rw (e) r
      | inr e ↦
          rw (e, some_yet, newest)
            (elim (Bool-cases (str_eq x cmd)) [
              | inl same ↦ rw (same) r
              | inr new ↦ rw (new) (kept-Recent cmd (x ∷ l) s short few r)
            ])
    ]

hist_get-Recent :
    (l : List (List ℕ)) (s : Shell)
    → Recent l s
    → (back : ℕ) → hist_get back s ≡ get_elem? (take hist_max l) back
unfolding hist_get
hist_get-Recent l s r back =
    let ct = r.counted in
    elim (Bool-cases (leb 8 back || leb s.hist_count back)) [
      | inl e ↦
          let past : (leb 8 back || leb (length l) back) ≡ true = ground arith in
          rw (e, get_elem?-take l 8 back, past) refl
      | inr e ↦
          let near : (leb 8 back || leb (length l) back) ≡ false = ground arith in
          let h = r.held back (ground arith) (ground arith) in
          rw (e, get_elem?-take l 8 back, near, ct) (ap some h)
    ]

-- The ring of the history refines the list of the commands that were entered, the most recent first
-- and without empty lines and immediate duplicates: entering a command that fits into a line pushes
-- it on the list, and `hist_get` reads the first eight commands of the list and nothing else. The
-- counter of the commands is below its last value.
pub remember-recall :
    (cmd : List ℕ) (l : List (List ℕ)) (s : Shell)
    → length cmd ≤ 127
    → length l + 1 < 2 ^ 32
    → Recent l s
    → Recent (recall cmd l) (remember cmd s)
      × ((back : ℕ)
          → hist_get back (remember cmd s) ≡ get_elem? (take hist_max (recall cmd l)) back)
remember-recall cmd l s short few r =
    let r' = remember-Recent cmd l s short few r in
    (r', hist_get-Recent (recall cmd l) (remember cmd s) r')
