-- ===== src/Printf/Total.antt =====
-- The loop of libc/printf.c ends: each round takes a character of the format at least.
use nova_kernel.Prelude.{
  ℕ, zero, suc, ◌+◌, ◌-◌, ◌*◌, ◌<◌, ◌≤◌, ◌≡◌, ◌^◌, ◌⊎◌, ◌∙◌, Option, none, some, refl, Bool, true,
  false, ltb, leb, ◌||◌, if◌then◌else◌, ◌==◌, arith, List, [], ◌∷◌, length, ap, Bool-cases, inl,
  inr, subst, Option-cases, List-cases,
}
use nova_kernel.Printf.{
  Output, putc_into, put_piece, read_flags, read_number, read_prec, directive, Arg, convert,
  overflows, end_string, Outcome, finished, undefined, unfinished, format_loop, finish, kvsnprintf,
  put_all,
}
use nova_kernel.Printf.Bounds.{formatted, text_of, Agrees, loop-Agrees, Shows, put_all-Shows}

length-read_flags :
    (left zeros : Bool) (fmt : List ℕ) → length (read_flags left zeros fmt).rest ≤ length fmt
unfolding read_flags
length-read_flags left zeros [] = omega arith
length-read_flags left zeros (c ∷ cs) =
    let a = length-read_flags true zeros cs in
    let b = length-read_flags left true cs in ground arith

length-read_number : (n : ℕ) (fmt : List ℕ) → length (read_number n fmt).1 ≤ length fmt
unfolding read_number
length-read_number n [] = omega arith
length-read_number n (c ∷ cs) = let a = length-read_number (n * 10 + (c - b'0')) cs in ground arith

length-read_prec : (fmt : List ℕ) → length (read_prec fmt).1 ≤ length fmt
unfolding read_prec
length-read_prec [] = omega arith
length-read_prec (c ∷ cs) = let a = length-read_number 0 cs in ground arith

length-directive : (fmt : List ℕ) → length (directive fmt).rest ≤ length fmt
unfolding directive
length-directive fmt =
    let f = read_flags false false fmt in
    let n = read_number 0 f.rest in
    let a = length-read_flags false false fmt in
    let b = length-read_number 0 f.rest in let c = length-read_prec n.1 in omega arith

abbrev ends : Outcome → Bool
ends (finished o) = true
ends undefined = true
ends unfinished = false

if-ends : (b : Bool) (r : Outcome) → ends r ≡ true → ends (if b then undefined else r) ≡ true
if-ends true r h = refl
if-ends false r h = h

ends-format_loop :
    (fuel size : ℕ) (fmt : List ℕ) (args : List Arg) (o : Output)
    → length fmt < fuel
    → ends (format_loop fuel size fmt args o) ≡ true
unfolding format_loop
ends-format_loop zero size fmt args o h = absurd (omega (arith, h))
ends-format_loop (suc fuel) size [] args o h = refl
ends-format_loop (suc fuel) size (c ∷ cs) args o h =
    let short = length-directive cs in
    elim (Bool-cases (c == b'%')) [
      | inr e ↦ rw (e) (ends-format_loop fuel size cs args (putc_into size c o) (omega arith))
      | inl e ↦ rw (e) (elim (List-cases (directive cs).rest) [
        | inl e' ↦
            rw (e') (if-ends (overflows (directive cs)) (finished (putc_into size b'%' o)) refl)
        | inr (k, rest, e') ↦
            let shorter : length (k ∷ rest) ≤ length cs =
              subst (λ r. length r ≤ length cs) e' short in
            rw (e') (elim (Option-cases (convert k (directive cs).prec args)) [
              | inl n ↦ rw (n) refl
              | inr (p, n) ↦
                  rw (n) (elim (Bool-cases (overflows (directive cs) || ltb 80 (length p.tmp))) [
                    | inl long ↦ rw (long) refl
                    | inr fits ↦ rw (fits) (
                        ends-format_loop fuel size rest p.args (put_piece size (directive cs) p o)
                          (omega arith))
                  ])
            ])
      ])
    ]

-- How a call ends: with a result, when its text is defined and shorter than 2 ^ 31 characters, and
-- in what C leaves undefined otherwise.
pub data Ending (fmt : List ℕ) (args : List Arg) (r : Outcome) : Type 0 where
  printed :
      (t : List ℕ) (o : Output)
      → formatted fmt args ≡ some t
      → length t < 2 ^ 31
      → r ≡ finished o
      → Ending fmt args r
  too_long :
      (t : List ℕ)
      → formatted fmt args ≡ some t
      → 2 ^ 31 ≤ length t
      → r ≡ undefined
      → Ending fmt args r
  no_text : formatted fmt args ≡ none → r ≡ undefined → Ending fmt args r

no_result : (r : Outcome) → ends r ≡ true → (r ≡ undefined) ⊎ (r ≡ unfinished) → r ≡ undefined
no_result r e (inl h) = h
no_result r e (inr h) = let k = ap ends h in absurd (ground arith)

finish-Ending :
    (buf : ℕ → ℕ) (size : ℕ) (fmt : List ℕ) (args : List Arg) (r : Outcome)
    → 0 < size
    → ends r ≡ true
    → (x : Option (List ℕ)) → formatted fmt args ≡ x
    → Agrees size x r (record { idx = 0; buf = buf })
    → Ending fmt args (finish size r)
finish-Ending buf size fmt args r pos e none f a = no_text f (ap (finish size) (no_result r e a))
finish-Ending buf size fmt args r pos e (some t) f a =
    let start : Output = record { idx = 0; buf = buf } in
    let o = put_all size t start in
    let s : Shows size buf t o =
      put_all-Shows size buf t [] start pos (record { at_end = refl; shown = λ i. ground arith }) in
    let ix = s.at_end in
    elim (Bool-cases (leb 0x80000000 o.idx)) [
      | inl long ↦ too_long t f (ground arith) (ap (finish size) a ∙ (rw (long) refl))
      | inr short ↦
          printed t (end_string size o) f (ground arith) (ap (finish size) a ∙ (rw (short) refl))
    ]

-- For every format and every list of arguments, with room for a byte, a call of `kvsnprintf` ends,
-- since the rounds that its loop is given are enough. It has a result exactly when the text of the
-- call is defined and shorter than 2 ^ 31 characters; otherwise it meets what C leaves undefined.
pub kvsnprintf-total :
    (buf : ℕ → ℕ) (size : ℕ) (fmt : List ℕ) (args : List Arg)
    → 0 < size
    → Ending fmt args (kvsnprintf buf size fmt args)
unfolding kvsnprintf formatted
kvsnprintf-total buf size fmt args pos =
    let start : Output = record { idx = 0; buf = buf } in
    let z : size == 0 ≡ false = ground arith in
    rw (z) (
      finish-Ending buf size fmt args (format_loop (suc (length fmt)) size fmt args start) pos
        (ends-format_loop (suc (length fmt)) size fmt args start (omega arith))
        (text_of (suc (length fmt)) fmt args) refl
        (loop-Agrees (suc (length fmt)) size fmt args start))
