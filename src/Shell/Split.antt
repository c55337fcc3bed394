-- ===== src/Shell/Split.antt =====
-- The words of a line, kernel/shell.c.
use nova_kernel.Prelude.{
  ℕ, zero, suc, ◌+◌, ◌-◌, ◌<◌, ◌≤◌, ◌≡◌, refl, true, false, leb, if◌then◌else◌, arith, List, [],
  ◌∷◌, length, take, ◌∙◌, ap, sym, Bool-cases, inl, inr, ◌⊎◌, subst,
}
use nova_kernel.Shell.{is_blank, skip_blanks, token, split_from, split}

-- A character that is no blank begins a word, or belongs to the word behind it.
abbrev glue : ℕ → List ℕ → List (List ℕ) → List (List ℕ)
glue c [] ws = (c ∷ []) ∷ ws
glue c (d ∷ ds) [] = (c ∷ []) ∷ []
glue c (d ∷ ds) (w ∷ ws) = if is_blank d then (c ∷ []) ∷ w ∷ ws else (c ∷ w) ∷ ws

-- The runs of characters between the blanks.
unfoldable pub words : List ℕ → List (List ℕ)
words [] = []
words (c ∷ cs) = let ws = words cs in if is_blank c then ws else glue c cs ws

words-blank : (c : ℕ) (cs : List ℕ) → is_blank c ≡ true → words (c ∷ cs) ≡ words cs
unfolding words
words-blank c cs e = rw (e) refl

words-solid : (c : ℕ) (cs : List ℕ) → is_blank c ≡ false → words (c ∷ cs) ≡ glue c cs (words cs)
unfolding words
words-solid c cs e = rw (e) refl

glue-blank :
    (c d : ℕ) (ds : List ℕ) (ws : List (List ℕ))
    → is_blank d ≡ true
    → glue c (d ∷ ds) ws ≡ (c ∷ []) ∷ ws
glue-blank c d ds [] e = refl
glue-blank c d ds (w ∷ ws) e = rw (e) refl

token-solid :
    (c : ℕ) (cs : List ℕ) → is_blank c ≡ false → token (c ∷ cs) ≡ (c ∷ (token cs).0, (token cs).1)
unfolding token
token-solid c cs e = rw (e) refl

token-blank : (c : ℕ) (cs : List ℕ) → is_blank c ≡ true → token (c ∷ cs) ≡ ([], cs)
unfolding token
token-blank c cs e = rw (e) refl

words-skip_blanks : (s : List ℕ) → words (skip_blanks s) ≡ words s
unfolding skip_blanks
words-skip_blanks [] = refl
words-skip_blanks (c ∷ cs) = elim (Bool-cases (is_blank c)) [
  | inl e ↦
      let k : skip_blanks (c ∷ cs) ≡ skip_blanks cs = rw (e) refl in
      ap words k ∙ (words-skip_blanks cs ∙ sym (words-blank c cs e))
  | inr e ↦ let k : skip_blanks (c ∷ cs) ≡ c ∷ cs = rw (e) refl in ap words k
]

-- What is left begins with no blank.
skip_blanks-head :
    (s : List ℕ)
    → (skip_blanks s ≡ [])
      ⊎ ((c : ℕ) × (cs : List ℕ) × (skip_blanks s ≡ c ∷ cs) × (is_blank c ≡ false))
unfolding skip_blanks
skip_blanks-head [] = inl refl
skip_blanks-head (c ∷ cs) = elim (Bool-cases (is_blank c)) [
  | inl e ↦ rw (e) (skip_blanks-head cs)
  | inr e ↦ rw (e) (inr (c, cs, refl, e))
]

length-skip_blanks : (s : List ℕ) → length (skip_blanks s) ≤ length s
unfolding skip_blanks
length-skip_blanks [] = omega arith
length-skip_blanks (c ∷ cs) = let h = length-skip_blanks cs in ground arith

length-token : (s : List ℕ) → length (token s).1 ≤ length s
unfolding token
length-token [] = omega arith
length-token (c ∷ cs) = let h = length-token cs in ground arith

words-token :
    (c : ℕ) (cs : List ℕ)
    → is_blank c ≡ false
    → words (c ∷ cs) ≡ (c ∷ (token cs).0) ∷ words (token cs).1
unfolding words token
words-token c [] e = rw (e) refl
words-token c (d ∷ ds) e = words-solid c (d ∷ ds) e ∙ (elim (Bool-cases (is_blank d)) [
  | inl blank ↦
      rw (token-blank d ds blank, words-blank d ds blank) (glue-blank c d ds (words ds) blank)
  | inr solid ↦ rw (token-solid d ds solid, words-token d ds solid, solid) refl
])

take-nil : (n : ℕ) → take {A = List ℕ} n [] ≡ []
take-nil zero = refl
take-nil (suc n) = refl

split_from-words :
    (fuel max n : ℕ) (s : List ℕ)
    → length s < fuel
    → split_from fuel max n s ≡ take (max - 1 - n) (words s)
unfolding split_from words
split_from-words zero max n s h = absurd (omega (arith, h))
split_from-words (suc fuel) max n s h = elim (skip_blanks-head s) [
  | inl e ↦
      let z : words s ≡ [] = sym (words-skip_blanks s) ∙ ap words e in
      rw (e, z) (sym (take-nil (max - 1 - n)))
  | inr (c, cs, e, solid) ↦
      let found : words s ≡ (c ∷ (token cs).0) ∷ words (token cs).1 =
        sym (words-skip_blanks s) ∙ (ap words e ∙ words-token c cs solid) in
      let l1 : length (c ∷ cs) ≤ length s =
        subst (λ r. length r ≤ length s) e (length-skip_blanks s) in
      let l2 = length-token cs in
      rw (e, token-solid c cs solid, found)
        (elim (Bool-cases (leb (max - 1) n)) [
          | inl full ↦ let k : max - 1 - n ≡ 0 = ground arith in rw (full, k) refl
          | inr place ↦
              let k : max - 1 - n ≡ suc (max - 1 - (n + 1)) = ground arith in
              rw (place, k)
                (ap (λ r. (c ∷ (token cs).0) ∷ r)
                  (split_from-words fuel max (n + 1) (token cs).1 (omega arith)))
        ])
]

-- `split` finds the words of the line, the first `max - 1` of them and no other.
pub split-words : (s : List ℕ) (max : ℕ) → split s max ≡ take (max - 1) (words s)
unfolding split
split-words s max =
    let k : max - 1 - 0 ≡ max - 1 = omega arith in
    split_from-words (suc (length s)) max 0 s (omega arith) ∙ ap (λ n. take n (words s)) k
