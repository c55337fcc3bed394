-- ===== src/Shell/Join.antt =====
-- The joined arguments of `echo`, `write` and `append`, kernel/shell.c.
use nova_kernel.Prelude.{
  ℕ, zero, suc, ◌≤◌, ◌≡◌, refl, Bool, true, false, arith, List, [], ◌∷◌, length, take, ◌∙◌, ap, sym,
  Bool-cases, inl, inr, ◌++◌, length-append, tests, length-take, Option, some, codes,
}
use mathlib.Core.List.{append-nil, append_assoc}
use nova_kernel.Shell.{World, argv_max, putsn, split, str_eq}
use nova_kernel.Shell.Split.{words, split-words}
use nova_kernel.Shell.Run.{Machine, dispatch, execute, has_place, put_chars, join_from, join_args}

-- with a space between two words
unfoldable pub intercalate : List (List ℕ) → List ℕ
intercalate [] = []
intercalate (w ∷ []) = w
intercalate (w ∷ v ∷ ws) = w ++ (b' ' ∷ intercalate (v ∷ ws))

pub take-short : (n : ℕ) (xs : List ℕ) → length xs ≤ n → take n xs ≡ xs
take-short zero [] h = refl
take-short zero (x ∷ xs) h = absurd (omega (arith, h))
take-short (suc n) [] h = refl
take-short (suc n) (x ∷ xs) h = ap (λ r. x ∷ r) (take-short n xs (omega arith))

take-full : (xs ys : List ℕ) (n : ℕ) → length xs ≡ n → take n (xs ++ ys) ≡ xs
take-full [] ys zero h = refl
take-full [] ys (suc n) h = absurd (omega (arith, h))
take-full (x ∷ xs) ys zero h = absurd (omega (arith, h))
take-full (x ∷ xs) ys (suc n) h = ap (λ r. x ∷ r) (take-full xs ys n (omega arith))

-- The buffer takes what fits.
put_chars-take : (cs t : List ℕ) → length t ≤ 126 → put_chars cs t ≡ take 126 (t ++ cs)
unfolding put_chars
put_chars-take [] t h = sym (ap (take 126) (append-nil t) ∙ take-short 126 t h)
put_chars-take (c ∷ cs) t h = elim (Bool-cases (has_place t)) [
  | inl e ↦
      let l = length-append t (c ∷ []) in
      rw (e) (
        put_chars-take cs (t ++ (c ∷ [])) (omega tests)
        ∙ ap (take 126) (append_assoc t (c ∷ []) cs))
  | inr e ↦ let full : length t ≡ 126 = ground arith in rw (e) (sym (take-full t (c ∷ cs) 126 full))
]

-- the words, each behind a space
abbrev spaced : Bool → List (List ℕ) → List ℕ
spaced first [] = []
spaced true (w ∷ ws) = w ++ spaced false ws
spaced false (w ∷ ws) = b' ' ∷ (w ++ spaced false ws)

spaced-intercalate : (ws : List (List ℕ)) → spaced true ws ≡ intercalate ws
unfolding intercalate
spaced-intercalate [] = refl
spaced-intercalate (w ∷ []) = append-nil w
spaced-intercalate (w ∷ v ∷ ws) = ap (λ r. w ++ (b' ' ∷ r)) (spaced-intercalate (v ∷ ws))

take-again : (t u : List ℕ) (n : ℕ) → take n (take n t ++ u) ≡ take n (t ++ u)
take-again t u zero = refl
take-again [] u (suc n) = refl
take-again (x ∷ t) u (suc n) = ap (λ r. x ∷ r) (take-again t u n)

put_chars-fits : (cs t : List ℕ) → length t ≤ 126 → length (put_chars cs t) ≤ 126
put_chars-fits cs t h =
    let e = ap length (put_chars-take cs t h) in let l = length-take 126 (t ++ cs) in omega arith

-- what comes behind
put_chars-more :
    (cs t u : List ℕ) → length t ≤ 126 → take 126 (put_chars cs t ++ u) ≡ take 126 (t ++ (cs ++ u))
put_chars-more cs t u h =
    ap (λ r. take 126 (r ++ u)) (put_chars-take cs t h)
    ∙ (take-again (t ++ cs) u 126 ∙ ap (take 126) (append_assoc t cs u))

no_place : (t u : List ℕ) → length t ≤ 126 → has_place t ≡ false → t ≡ take 126 (t ++ u)
no_place t u h e = sym (take-full t u 126 (ground arith))

join_from-take :
    (first : Bool) (ws : List (List ℕ)) (t : List ℕ)
    → length t ≤ 126
    → join_from first ws t ≡ take 126 (t ++ spaced first ws)
unfolding join_from
join_from-take first [] t h = sym (ap (take 126) (append-nil t) ∙ take-short 126 t h)
join_from-take true (w ∷ ws) t h = elim (Bool-cases (has_place t)) [
  | inr e ↦ rw (e) (no_place t (spaced true (w ∷ ws)) h e)
  | inl e ↦ rw (e) (
      join_from-take false ws (put_chars w t) (put_chars-fits w t h)
      ∙ put_chars-more w t (spaced false ws) h)
]
join_from-take false (w ∷ ws) t h =
    let u = put_chars (b' ' ∷ []) t in
    let short = put_chars-fits (b' ' ∷ []) t h in
    elim (Bool-cases (has_place t)) [
      | inr e ↦ rw (e) (no_place t (spaced false (w ∷ ws)) h e)
      | inl e ↦ rw (e) (
          join_from-take false ws (put_chars w u) (put_chars-fits w u short)
          ∙ (put_chars-more w u (spaced false ws) short
              ∙ put_chars-more (b' ' ∷ []) t (w ++ spaced false ws) h))
    ]

-- The joined arguments are the words with single spaces between them, cut at the 126 characters that
-- the buffer holds.
pub join_args-intercalate : (args : List (List ℕ)) → join_args args ≡ take 126 (intercalate args)
join_args-intercalate args =
    join_from-take true args [] (omega arith) ∙ ap (take 126) (spaced-intercalate args)

dispatch-echo :
    (machine : Machine → World → Option World) (args : List (List ℕ)) (w : World)
    → dispatch machine (codes "echo") args w ≡ some (putsn (join_args args) w)
unfolding dispatch str_eq
dispatch-echo machine args w = refl

-- A line whose first word is `echo` prints the words behind it, 14 of them at most, with single spaces
-- between them and cut at 126 characters, and a newline; the rest of the machine is as before.
pub execute-echo :
    (machine : Machine → World → Option World) (line : List ℕ) (args : List (List ℕ)) (w : World)
    → words line ≡ codes "echo" ∷ args
    → execute machine line w ≡ some (putsn (take 126 (intercalate (take 14 args))) w)
unfolding execute
execute-echo machine line args w e =
    let k : split line argv_max ≡ codes "echo" ∷ take 14 args =
      split-words line 16 ∙ ap (take 15) e in
    rw (k, execute)
      (dispatch-echo machine (take 14 args) w
        ∙ ap (λ r. some (putsn r w)) (join_args-intercalate (take 14 args)))
