-- ===== src/Syscall/Range.antt =====
-- The check of user pointers of kernel/syscall.c, and copies between buffers.
use nova_kernel.Prelude.{
  ℕ, zero, suc, ◌+◌, ◌-◌, ◌<◌, ◌≤◌, ◌≡◌, ◌^◌, ◌↔◌, ◌⊎◌, refl, ap, ap₂, ◌∙◌, true, ◌&&◌, arith, leb,
  ltb, ◌==◌, if◌then◌else◌, update, for_range_inv, Bool-cases, inl, inr, ◌∷◌,
}
use nova_kernel.Syscall.Files.{user_range_ok, user_mem_start, user_mem_end, copy_bytes, bytes_at}

-- For u32 values: `user_range_ok` accepts a range exactly when it is empty or lies inside the user
-- window, so nothing that it accepts wraps or leaves 0x200000..0x2FFFFF.
pub user_range_ok_iff :
    (addr len : ℕ)
    → addr < 2 ^ 32
    → len < 2 ^ 32
    → (user_range_ok addr len ≡ true)
      ↔ ((len ≡ 0) ⊎ ((user_mem_start ≤ addr) × (addr + len ≤ user_mem_end)))
unfolding user_range_ok
user_range_ok_iff addr len ha hl = (λ h. ground arith, λ h. ground arith)

-- What `copy_bytes` leaves at every index.
pub copy_bytes_lem :
    (n : ℕ) (from to : ℕ → ℕ) (src at j : ℕ)
    → copy_bytes n from src to at j
      ≡ (if leb at j && ltb j (at + n) then from (src + (j - at)) else to j)
unfolding copy_bytes
copy_bytes_lem n from to src at j =
    for_range_inv
      (λ i (t : ℕ → ℕ). t j ≡ (if leb at j && ltb j (at + i) then from (src + (j - at)) else to j))
      (λ i t. update t (at + i) (from (src + i))) 0 n n to (omega arith)
      (λ k t lo hi h. elim (Bool-cases (at + k == j)) [
        | inl hit ↦
            let within : (leb at j && ltb j (at + (k + 1))) ≡ true = ground arith in
            let e : src + k ≡ src + (j - at) = ground arith in rw (hit, within, e)
        | inr miss ↦ ground arith
      ])
      (ground arith)

-- Two buffers that agree on a range hold the same bytes there.
pub bytes_at-congr :
    (m m' : ℕ → ℕ) (a n : ℕ)
    → ((j : ℕ) → a ≤ j → j < a + n → m j ≡ m' j)
    → bytes_at m a n ≡ bytes_at m' a n
unfolding bytes_at
bytes_at-congr m m' a zero h = refl
bytes_at-congr m m' a (suc n) h =
    ap₂ ◌∷◌ (h a (omega arith) (omega arith))
      (bytes_at-congr m m' (a + 1) n (λ j lo hi. h j (omega arith) (omega arith)))

-- The same bytes at two places.
pub bytes_at-shift :
    (m m' : ℕ → ℕ) (a b n : ℕ)
    → ((i : ℕ) → i < n → m (a + i) ≡ m' (b + i))
    → bytes_at m a n ≡ bytes_at m' b n
unfolding bytes_at
bytes_at-shift m m' a b zero h = refl
bytes_at-shift m m' a b (suc n) h = ap₂ ◌∷◌ first (
    bytes_at-shift m m' (a + 1) (b + 1) n
      (λ i lt. ap m (omega arith) ∙ h (i + 1) (omega arith) ∙ ap m' (omega arith)))
  where
    first : m a ≡ m' b
    first = ap m (omega arith) ∙ h 0 (omega arith) ∙ ap m' (omega arith)

-- A copy puts the bytes of the source where it writes.
pub bytes_at-copy_bytes :
    (n : ℕ) (from to : ℕ → ℕ) (src at : ℕ)
    → bytes_at (copy_bytes n from src to at) at n ≡ bytes_at from src n
bytes_at-copy_bytes n from to src at =
    bytes_at-shift (copy_bytes n from src to at) from at src n
      (λ i lt. copy_bytes_lem n from to src at (at + i) ∙ pick i lt)
  where
    pick :
        (i : ℕ)
        → i < n
        → (if leb at (at + i) && ltb (at + i) (at + n)
            then from (src + (at + i - at))
            else to (at + i))
          ≡ from (src + i)
    pick i lt =
        let within : (leb at (at + i) && ltb (at + i) (at + n)) ≡ true = ground arith in
        rw within (ap from (omega arith))
