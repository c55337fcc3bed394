-- ===== src/Printf/Bounds.antt =====
-- Where libc/printf.c writes: the formatted text as a list, and its place in the buffer.
use nova_kernel.Prelude.{
  ℕ, zero, suc, ◌+◌, ◌-◌, ◌<◌, ◌≡◌, refl, false, not, ◌&&◌, ◌||◌, ◌^◌, leb, ltb, ◌==◌,
  if◌then◌else◌, arith, List, [], ◌∷◌, ◌++◌, length, replicate, get_or, Option, none, some, ◌∙◌, ap,
  sym, Bool-cases, inl, inr, ◌⊎◌, subst, min, length-append, Option-cases, List-cases, tests,
}
use mathlib.Core.List.{append-nil, append_assoc}
use nova_kernel.Printf.{
  Output, putc_into, putpad, put_all, put_piece, Directive, directive, Piece, Arg, convert, no_prec,
  overflows, Outcome, finished, undefined, unfinished, format_loop, finish, end_string, kvsnprintf,
}

-- The text of one conversion.
unfoldable pub piece_text : Directive → Piece → List ℕ
piece_text d p =
    let body = length p.tmp + (if p.negative then 1 else 0) in
    let padding = d.width - body in
    let sign = if p.negative then b'-' ∷ [] else [] in
    if d.left
    then sign ++ (p.tmp ++ replicate padding b' ')
    else if not d.zeros
    then replicate padding b' ' ++ (sign ++ p.tmp)
    else sign ++ ((if no_prec d.prec then replicate padding b'0' else []) ++ p.tmp)

abbrev pub before : List ℕ → Option (List ℕ) → Option (List ℕ)
before s none = none
before s (some t) = some (s ++ t)

-- The whole text, with rounds as in `format_loop`; `none` is a call without a defined result.
unfoldable pub text_of : ℕ → List ℕ → List Arg → Option (List ℕ)
text_of zero fmt args = none
text_of (suc fuel) [] args = some []
text_of (suc fuel) (c ∷ cs) args =
    let plain = text_of fuel cs args in
    if not (c == b'%')
    then before (c ∷ []) plain
    else (let d = directive cs in
        elim d.rest [
          | [] ↦ if overflows d then none else some (b'%' ∷ [])
          | k ∷ rest ↦ elim (convert k d.prec args) [
            | none ↦ none
            | some p ↦
                if overflows d || ltb 80 (length p.tmp)
                then none
                else before (piece_text d p) (text_of fuel rest p.args)
          ]
        ])

-- The text of a call.
unfoldable pub formatted : List ℕ → List Arg → Option (List ℕ)
formatted fmt args = text_of (suc (length fmt)) fmt args

put_all-append :
    (size : ℕ) (s t : List ℕ) (o : Output)
    → put_all size (s ++ t) o ≡ put_all size t (put_all size s o)
unfolding put_all
put_all-append size [] t o = refl
put_all-append size (c ∷ s) t o = put_all-append size s t (putc_into size c o)

putpad-replicate : (size c n : ℕ) (o : Output) → putpad size c n o ≡ put_all size (replicate n c) o
unfolding putpad put_all
putpad-replicate size c zero o = refl
putpad-replicate size c (suc n) o = putpad-replicate size c n (putc_into size c o)

-- The pieces are put the way the text has them.
put_piece-text :
    (size : ℕ) (d : Directive) (p : Piece) (o : Output)
    → put_piece size d p o ≡ put_all size (piece_text d p) o
unfolding put_piece piece_text put_all
put_piece-text size d p o = grind (arith, put_all-append, putpad-replicate)

-- A loop has put the text, when there is one, and has no result when there is none.
abbrev pub Agrees : ℕ → Option (List ℕ) → Outcome → Output → Type 0
Agrees size none r o = (r ≡ undefined) ⊎ (r ≡ unfinished)
Agrees size (some t) r o = r ≡ finished (put_all size t o)

before-Agrees :
    (size : ℕ) (s : List ℕ) (x : Option (List ℕ)) (r : Outcome) (o : Output)
    → Agrees size x r (put_all size s o)
    → Agrees size (before s x) r o
before-Agrees size s none r o h = h
before-Agrees size s (some t) r o h = h ∙ ap finished (sym (put_all-append size s t o))

directive-Agrees :
    (fuel size : ℕ) (cs : List ℕ) (args : List Arg) (o : Output)
    → ((rest : List ℕ) (args' : List Arg) (o' : Output)
        → Agrees size (text_of fuel rest args') (format_loop fuel size rest args' o') o')
    → Agrees size
        (elim (directive cs).rest [
          | [] ↦ if overflows (directive cs) then none else some (b'%' ∷ [])
          | k ∷ rest ↦ elim (convert k (directive cs).prec args) [
            | none ↦ none
            | some p ↦
                if overflows (directive cs) || ltb 80 (length p.tmp)
                then none
                else before (piece_text (directive cs) p) (text_of fuel rest p.args)
          ]
        ])
        (elim (directive cs).rest [
          | [] ↦ if overflows (directive cs) then undefined else finished (putc_into size b'%' o)
          | k ∷ rest ↦ elim (convert k (directive cs).prec args) [
            | none ↦ undefined
            | some p ↦
                if overflows (directive cs) || ltb 80 (length p.tmp)
                then undefined
                else format_loop fuel size rest p.args (put_piece size (directive cs) p o)
          ]
        ])
        o
unfolding put_all
directive-Agrees fuel size cs args o ih = elim (List-cases (directive cs).rest) [
  | inl e ↦ rw (e) (elim (Bool-cases (overflows (directive cs))) [
    | inl large ↦ rw (large) (inl refl)
    | inr fits ↦ rw (fits) refl
  ])
  | inr (k, rest, e) ↦ rw (e) (elim (Option-cases (convert k (directive cs).prec args)) [
    | inl e' ↦ rw (e') (inl refl)
    | inr (p, e') ↦ rw (e') (elim (Bool-cases (overflows (directive cs) || ltb 80 (length p.tmp))) [
      | inl long ↦ rw (long) (inl refl)
      | inr short ↦ rw (short) (
          before-Agrees size (piece_text (directive cs) p) (text_of fuel rest p.args)
            (format_loop fuel size rest p.args (put_piece size (directive cs) p o)) o
            (subst
              (λ q.
                Agrees size (text_of fuel rest p.args)
                  (format_loop fuel size rest p.args (put_piece size (directive cs) p o)) q)
              (put_piece-text size (directive cs) p o)
              (ih rest p.args (put_piece size (directive cs) p o))))
    ])
  ])
]

pub loop-Agrees :
    (fuel size : ℕ) (fmt : List ℕ) (args : List Arg) (o : Output)
    → Agrees size (text_of fuel fmt args) (format_loop fuel size fmt args o) o
unfolding text_of format_loop put_all
loop-Agrees zero size fmt args o = inr refl
loop-Agrees (suc fuel) size [] args o = refl
loop-Agrees (suc fuel) size (c ∷ cs) args o = elim (Bool-cases (c == b'%')) [
  | inr e ↦ rw (e) (
      before-Agrees size (c ∷ []) (text_of fuel cs args)
        (format_loop fuel size cs args (putc_into size c o)) o
        (loop-Agrees fuel size cs args (putc_into size c o)))
  | inl e ↦ rw (e) (directive-Agrees fuel size cs args o (loop-Agrees fuel size))
]

-- The text `l` stands in the buffer, up to its last byte, and the rest is as before.
pub record Shows (size : ℕ) (buf : ℕ → ℕ) (l : List ℕ) (o : Output) : Type 0 where
  pub at_end : o.idx ≡ length l
  pub shown :
      (i : ℕ) → o.buf i ≡ (if ltb (i + 1) size && ltb i (length l) then get_or l i 0 else buf i)

get_or-append : (l s : List ℕ) (i : ℕ) → i < length l → get_or (l ++ s) i 0 ≡ get_or l i 0
get_or-append [] s i h = absurd (omega (arith, h))
get_or-append (x ∷ l) s zero h = refl
get_or-append (x ∷ l) s (suc i) h = get_or-append l s i (omega arith)

get_or-snoc : (l : List ℕ) (c : ℕ) → get_or (l ++ c ∷ []) (length l) 0 ≡ c
get_or-snoc [] c = refl
get_or-snoc (x ∷ l) c = get_or-snoc l c

putc_into-Shows :
    (size : ℕ) (buf : ℕ → ℕ) (l : List ℕ) (c : ℕ) (o : Output)
    → 0 < size
    → Shows size buf l o
    → Shows size buf (l ++ c ∷ []) (putc_into size c o)
unfolding putc_into
putc_into-Shows size buf l c o pos s =
    let ix = s.at_end in
    let zero_not : size == 0 ≡ false = ground arith in
    rw (zero_not) (record {
      at_end = let e = length-append l (c ∷ []) in omega arith;
      shown = λ i.
          let e = length-append l (c ∷ []) in
          let h = s.shown i in
          elim (Bool-cases (o.idx == i)) [
            | inl here ↦
                let at : i ≡ length l = ground arith in
                let got = get_or-snoc l c in
                let got' : get_or (l ++ c ∷ []) i 0 ≡ c =
                  ap (λ k. get_or (l ++ c ∷ []) k 0) at ∙ got in
                ground arith
            | inr other ↦ elim (Bool-cases (ltb i (length l))) [
              | inl inside ↦ let got = get_or-append l (c ∷ []) i (omega tests) in ground arith
              | inr outside ↦ ground arith
            ]
          ];
    })

pub put_all-Shows :
    (size : ℕ) (buf : ℕ → ℕ) (s l : List ℕ) (o : Output)
    → 0 < size
    → Shows size buf l o
    → Shows size buf (l ++ s) (put_all size s o)
unfolding put_all
put_all-Shows size buf [] l o pos h = subst (λ k. Shows size buf k o) (sym (append-nil l)) h
put_all-Shows size buf (c ∷ s) l o pos h =
    subst (λ k. Shows size buf k (put_all size s (putc_into size c o))) (append_assoc l (c ∷ []) s)
      (put_all-Shows size buf s (l ++ c ∷ []) (putc_into size c o) pos
        (putc_into-Shows size buf l c o pos h))

-- When the text of a call is defined (no width or precision overflows an `int`, for one), has fewer
-- than 2 ^ 31 characters, and the buffer has a place, `kvsnprintf` returns the length of
-- the text, leaves as much of the text in the buffer as fits before the last byte, ends it with a
-- NUL, and changes no other byte.
pub kvsnprintf-formatted :
    (buf : ℕ → ℕ) (size : ℕ) (fmt : List ℕ) (args : List Arg) (t : List ℕ)
    → 0 < size
    → formatted fmt args ≡ some t
    → length t < 2 ^ 31
    → (o : Output) × (kvsnprintf buf size fmt args ≡ finished o)
      × (o.idx ≡ length t)
      × ((i : ℕ)
          → o.buf i ≡ (
              if i == min (length t) (size - 1)
              then 0
              else if ltb i (min (length t) (size - 1))
              then get_or t i 0
              else buf i))
unfolding kvsnprintf formatted
kvsnprintf-formatted buf size fmt args t pos e short =
    let start : Output = record { idx = 0; buf = buf } in
    let loop =
      subst (λ x. Agrees size x (format_loop (suc (length fmt)) size fmt args start) start) e
        (loop-Agrees (suc (length fmt)) size fmt args start) in
    let s : Shows size buf t (put_all size t start) =
      put_all-Shows size buf t [] start pos (record { at_end = refl; shown = λ i. ground arith }) in
    let zero_not : size == 0 ≡ false = ground arith in
    let ix = s.at_end in
    (
      end_string size (put_all size t start),
      rw (zero_not) (
          ap (finish size) loop
          ∙ (let fits : leb 0x80000000 (put_all size t start).idx ≡ false = ground arith in
              rw (fits) refl)),
      ix,
      λ i. let h = s.shown i in ground arith,
    )
