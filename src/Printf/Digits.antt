-- ===== src/Printf/Digits.antt =====
-- The digits that libc/printf.c writes for a word.
use nova_kernel.Prelude.{
  ℕ, zero, suc, ◌+◌, ◌-◌, ◌*◌, ◌/◌, ◌%◌, ◌^◌, ◌<◌, ◌≤◌, ◌≡◌, refl, Bool, true, false, ltb, ◌==◌,
  if◌then◌else◌, arith, List, [], ◌∷◌, ◌∙◌, Bool-cases, inl, inr,
}
use native.Mathlib.Nat.{mod-lt, pow-suc, mul-le-mul_left, div-add-mod', div-lt_iff_lt-mul}
use nova_kernel.Printf.{digit, digits_rev, reverse_onto, u32_to_str}

-- Reading: the value of one digit, and of a string of them.
unfoldable pub digit_value : ℕ → ℕ
digit_value c = if ltb c b'A' then c - b'0' else if ltb c b'a' then c - b'A' + 10 else c - b'a' + 10

unfoldable pub parse : ℕ → ℕ → List ℕ → ℕ
parse base acc [] = acc
parse base acc (c ∷ cs) = parse base (acc * base + digit_value c) cs

-- the value of digits that come the last first
unfoldable value_rev : ℕ → List ℕ → ℕ
value_rev base [] = 0
value_rev base (c ∷ cs) = value_rev base cs * base + digit_value c

digit_value-digit : (upper : Bool) (n : ℕ) → n < 16 → digit_value (digit upper n) ≡ n
unfolding digit_value
digit_value-digit true n h = ground arith
digit_value-digit false n h = ground arith

parse-reverse_onto :
    (base : ℕ) (cs out : List ℕ)
    → parse base 0 (reverse_onto cs out) ≡ parse base (value_rev base cs) out
unfolding reverse_onto value_rev parse
parse-reverse_onto base [] out = refl
parse-reverse_onto base (c ∷ cs) out = parse-reverse_onto base cs (c ∷ out)

div_small : (fuel base v : ℕ) → 2 ≤ base → v < 2 ^ suc fuel → v / base < 2 ^ fuel
div_small fuel base v lo h =
    let power = pow-suc 2 fuel in
    let more = mul-le-mul_left {m = 2} {n = base} (2 ^ fuel) lo in
    (div-lt_iff_lt-mul {k = base} {x = v} {y = 2 ^ fuel} (omega arith)).1 (omega arith)

value_rev-digits_rev :
    (fuel base v : ℕ) (upper : Bool)
    → 2 ≤ base
    → base ≤ 16
    → v < 2 ^ fuel
    → value_rev base (digits_rev fuel base upper v) ≡ v
unfolding value_rev digits_rev
value_rev-digits_rev zero base v upper lo hi h = omega arith
value_rev-digits_rev (suc fuel) base v upper lo hi h = elim (Bool-cases (v == 0)) [
  | inl e ↦ let z : v ≡ 0 = ground arith in rw (e, z) refl
  | inr e ↦
      let small : v / base < 2 ^ fuel = div_small fuel base v lo h in
      let d =
        digit_value-digit upper (v % base) (omega (arith, mod-lt v {m = base} (omega arith))) in
      let parts : v / base * base + v % base ≡ v = div-add-mod' v base in
      rw (e, value_rev-digits_rev fuel base (v / base) upper lo hi small, d) parts
]

-- Reading the digits that `u32_to_str` writes for a word gives the word back, in every base from 2 to
-- 16 and in both cases of letters.
pub parse-u32_to_str :
    (v base : ℕ) (upper : Bool)
    → v < 2 ^ 32
    → 2 ≤ base
    → base ≤ 16
    → parse base 0 (u32_to_str v base upper) ≡ v
unfolding u32_to_str parse digit_value
parse-u32_to_str v base upper h lo hi = elim (Bool-cases (v == 0)) [
  | inl e ↦ let z : v ≡ 0 = ground arith in rw (e, z) (omega arith)
  | inr e ↦ rw (e) (
      parse-reverse_onto base (digits_rev 32 base upper v) []
      ∙ value_rev-digits_rev 32 base v upper lo hi h)
]
