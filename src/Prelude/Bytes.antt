-- ===== src/Prelude/Bytes.antt =====
-- Facts about the bits of a byte, checked value by value.
use Prim.Native.Nat.{ℕ, zero, suc, ◌-◌, ◌^◌, ◌<◌, bit_and, bit_or}
use mathlib.Core.Path.{◌≡◌, refl}
use mathlib.Core.Bool.{Bool, true, false, not, ◌&&◌, ◌||◌}
use native.Mathlib.Omega.{arith}
use nova_kernel.Prelude.Tests.{if◌then◌else◌, ltb, ltb→lt, ◌==◌}

-- the test passes for every number up to a bound
unfoldable pub passes : (bound : ℕ) (test : ℕ → Bool) → Bool
passes zero test = true
passes (suc last) test = if test last then passes last test else false

pub passes-at :
    (test : ℕ → Bool) (bound : ℕ) {at : ℕ} → passes bound test ≡ true → at < bound → test at ≡ true
unfolding passes
passes-at test zero all below = elim below [ ]
passes-at test (suc last) {at} all below =
    let earlier = passes-at test last {at = at} in ground (arith, earlier)

abbrev pub bool_eq : Bool → Bool → Bool
bool_eq true b = b
bool_eq false b = not b

pub bool_eq_sound : (a b : Bool) → bool_eq a b ≡ true → a ≡ b
bool_eq_sound a b h = ground arith

-- bit `k` of the byte `b`, as C tests it: b & (1 << k)
unfoldable pub test_bit : ℕ → ℕ → Bool
test_bit b k = not (bit_and b (2 ^ k) == 0)

-- b | (1 << k)
unfoldable pub set_bit : ℕ → ℕ → ℕ
set_bit b k = bit_or b (2 ^ k)

-- b & (u8)~(1 << k)
unfoldable pub clear_bit : ℕ → ℕ → ℕ
clear_bit b k = bit_and b (255 - 2 ^ k)

set_table :
    passes 256 (λ b. passes 8 (λ k.
      ltb (set_bit b k) 256
      && passes 8 (λ j. bool_eq (test_bit (set_bit b k) j) ((k == j) || test_bit b j))))
    ≡ true
unfolding passes set_bit test_bit
set_table = refl

clear_table :
    passes 256 (λ b. passes 8 (λ k.
      ltb (clear_bit b k) 256
      && passes 8 (λ j. bool_eq (test_bit (clear_bit b k) j) (not (k == j) && test_bit b j))))
    ≡ true
unfolding passes clear_bit test_bit
clear_table = refl

and_split : (a b : Bool) → (a && b) ≡ true → (a ≡ true) × (b ≡ true)
and_split a b h = ground arith

set_row :
    (b k : ℕ)
    → b < 256
    → k < 8
    → (set_bit b k < 256)
      × ((j : ℕ) → j < 8 → test_bit (set_bit b k) j ≡ ((k == j) || test_bit b j))
set_row b k hb hk =
    let row = passes-at _ 8 (passes-at _ 256 set_table hb) hk in
    let parts = and_split (ltb (set_bit b k) 256) _ row in
    (ltb→lt _ _ parts.0, λ j hj. bool_eq_sound _ _ (passes-at _ 8 parts.1 hj))

clear_row :
    (b k : ℕ)
    → b < 256
    → k < 8
    → (clear_bit b k < 256)
      × ((j : ℕ) → j < 8 → test_bit (clear_bit b k) j ≡ (not (k == j) && test_bit b j))
clear_row b k hb hk =
    let row = passes-at _ 8 (passes-at _ 256 clear_table hb) hk in
    let parts = and_split (ltb (clear_bit b k) 256) _ row in
    (ltb→lt _ _ parts.0, λ j hj. bool_eq_sound _ _ (passes-at _ 8 parts.1 hj))

pub set_bit-lt : (b k : ℕ) → b < 256 → k < 8 → set_bit b k < 256
set_bit-lt b k hb hk = (set_row b k hb hk).0

pub clear_bit-lt : (b k : ℕ) → b < 256 → k < 8 → clear_bit b k < 256
clear_bit-lt b k hb hk = (clear_row b k hb hk).0

pub test_bit-set_bit :
    (b k j : ℕ) → b < 256 → k < 8 → j < 8 → test_bit (set_bit b k) j ≡ ((k == j) || test_bit b j)
test_bit-set_bit b k j hb hk hj = (set_row b k hb hk).1 j hj

pub test_bit-clear_bit :
    (b k j : ℕ)
    → b < 256
    → k < 8
    → j < 8
    → test_bit (clear_bit b k) j ≡ (not (k == j) && test_bit b j)
test_bit-clear_bit b k j hb hk hj = (clear_row b k hb hk).1 j hj

zero_table : passes 8 (λ k. not (test_bit 0 k)) ≡ true
unfolding passes test_bit
zero_table = refl

pub test_bit_zero : (k : ℕ) → k < 8 → test_bit 0 k ≡ false
test_bit_zero k h = ground (arith, passes-at (λ k. not (test_bit 0 k)) 8 zero_table h)
