-- ===== src/Prelude/Arrays.antt =====
-- C arrays as functions from the index, and the counted loops over them.
use Prim.Native.Nat.{ℕ, zero, suc, ◌+◌, ◌≤◌, ◌<◌}
use mathlib.Core.Path.{◌≡◌, refl}
use native.Mathlib.Omega.{arith}
use nova_kernel.Prelude.Tests.{◌==◌, if◌then◌else◌}

-- a[i] = v
module _ {ℓ} {A : Type ℓ} (a : ℕ → A) where
  abbrev pub update : (i : ℕ) (v : A) → ℕ → A
  update i v j = if i == j then v else a j

-- for (k = first; k < first + rounds; k++) st = step k st
module _ {ℓ} {St : Type ℓ} where
  pub for_range : (rounds first : ℕ) (step : ℕ → St → St) → St → St
  for_range zero first step st = st
  for_range (suc before) first step st = step (first + before) (for_range before first step st)

  -- What each round keeps, the loop keeps.
  pub for_range_inv {κ} :
      (Inv : ℕ → St → Type κ) (step : ℕ → St → St) (first last rounds : ℕ) (st : St)
      → first + rounds ≡ last
      → ((k : ℕ) (t : St) → first ≤ k → k < last → Inv k t → Inv (k + 1) (step k t))
      → Inv first st
      → Inv last (for_range rounds first step st)
  unfolding for_range
  for_range_inv Inv step first last zero st e keep start =
      let same : first ≡ last = omega arith in rw (← same) start
  for_range_inv Inv step first last (suc before) st e keep start =
      let done =
        for_range_inv Inv step first (first + before) before st refl
          (λ k t lo hi h. keep k t lo (omega arith) h) start in
      let end : first + before + 1 ≡ last = omega arith in
      rw (← end) (keep (first + before) _ (omega arith) (omega arith) done)

  -- A predicate of functions that every round keeps holds of the loop, with no round the identity.
  pub for_range_ind {κ} :
      (P : (St → St) → Type κ) (step : ℕ → St → St) (rounds first : ℕ)
      → P (λ st. st)
      → ((k : ℕ) (f : St → St) → P f → P (λ st. step k (f st)))
      → P (for_range rounds first step)
  unfolding for_range
  for_range_ind P step zero first start keep = start
  for_range_ind P step (suc n) first start keep =
      keep (first + n) (for_range n first step) (for_range_ind P step n first start keep)
