-- ===== src/Mm/Alloc.antt =====
-- Allocation and release of frames, kernel/mm.c: which frame is handed out, and what the free
-- count says afterwards.
use nova_kernel.Prelude.{
  ap, ℕ, zero, suc, ◌+◌, ◌*◌, ◌/◌, ◌%◌, ◌<◌, ◌≤◌, ◌≡◌, refl, sym, ◌∙◌, ◌≢◌, true, false, ◌||◌, ◌==◌,
  ltb, arith, Bool-cases, inl, inr,
}
use mathlib.Core.Bool.{false≢true}
use nova_kernel.Mm.{Mm, frame_size, frame_count, is_used, set_used, alloc_from, frame_alloc}
use nova_kernel.Mm.Bitmap.{IsBytes, is_used-set_used}

-- every frame of [lo, hi) is in use
abbrev pub AllUsed : Mm → ℕ → ℕ → Type 0
AllUsed m lo hi = (j : ℕ) → lo ≤ j → j < hi → is_used m j ≡ true

-- `r` is what a search of [lo, hi) gives that took the free frame `i`
pub record Took (m : Mm) (lo hi : ℕ) (r : ℕ × Mm) (i : ℕ) : Type 0 where
  pub above : lo ≤ i
  pub below : i < hi
  pub was_free : is_used m i ≡ false
  pub lowest : AllUsed m lo i
  pub result : r ≡ (i * frame_size, set_used m i)

pub data Search (m : Mm) (lo hi : ℕ) (r : ℕ × Mm) : Type 0 where
  full : AllUsed m lo hi → r ≡ (0, m) → Search m lo hi r
  took : (i : ℕ) → Took m lo hi r i → Search m lo hi r

widen :
    {m : Mm} {lo hi : ℕ} {r : ℕ × Mm}
    → is_used m lo ≡ true
    → Search m (lo + 1) hi r
    → Search m lo hi r
widen {m} {lo} {hi} used (full all e) = full (λ j a b. grind (arith, all)) e
widen {m} {lo} {hi} used (took i t) = took i (record {
  above = omega arith;
  below = t.below;
  was_free = t.was_free;
  lowest = λ j a b. grind (arith, t.lowest);
  result = t.result;
})

pub alloc_from-Search : (n lo hi : ℕ) (m : Mm) → lo + n ≡ hi → Search m lo hi (alloc_from n lo m)
unfolding alloc_from
alloc_from-Search zero lo hi m e = full (λ j a b. absurd (omega arith)) refl
alloc_from-Search (suc n) lo hi m e = elim (Bool-cases (is_used m lo)) [
  | inl used ↦ rw used (widen used (alloc_from-Search n (lo + 1) hi m (omega arith)))
  | inr unused ↦ rw unused (
      took lo (record {
        above = omega arith;
        below = omega arith;
        was_free = unused;
        lowest = λ j a b. absurd (omega arith);
        result = refl;
      }))
]

-- A search of the whole bitmap, with the call sealed.
pub frame_alloc-Search : (m : Mm) → Search m 0 frame_count (frame_alloc m)
unfolding frame_alloc
frame_alloc-Search m = alloc_from-Search frame_count 0 frame_count m (omega arith)

-- what `frame_alloc` promises of the address `a` and the new state `m'`
pub record Fresh (m : Mm) (a : ℕ) (m' : Mm) : Type 0 where
  pub in_memory : a < frame_count * frame_size
  pub aligned : a % frame_size ≡ 0
  pub was_free : is_used m (a / frame_size) ≡ false
  pub marked : (j : ℕ) → is_used m' j ≡ ((a / frame_size == j) || is_used m j)
  pub refs : m'.frame_refs ≡ m.frame_refs

Took-Fresh : (m : Mm) {r : ℕ × Mm} (i : ℕ) → IsBytes m → Took m 0 frame_count r i → Fresh m r.0 r.1
Took-Fresh m i v t =
    let e : i * frame_size / frame_size ≡ i = omega arith in
    let b = t.below in
    rw t.result (record {
      in_memory = omega arith;
      aligned = omega arith;
      was_free = rw e t.was_free;
      marked = λ j. rw e (is_used-set_used m i j v);
      refs = shared;
    })
  where
    shared : (set_used m i).frame_refs ≡ m.frame_refs
    shared = unfold set_used in refl

-- An address that `frame_alloc` returns is a page-aligned frame below 4 MB that was free; it is
-- in use afterwards, no other frame changes, and no reference count does.
pub frame_alloc-Fresh :
    (m : Mm) → IsBytes m → (frame_alloc m).0 ≢ 0 → Fresh m (frame_alloc m).0 (frame_alloc m).1
frame_alloc-Fresh m v ne = go (frame_alloc-Search m)
  where
    go : Search m 0 frame_count (frame_alloc m) → Fresh m (frame_alloc m).0 (frame_alloc m).1
    go (full all e) = absurd (ne (ap (λ (r : ℕ × Mm). r.0) e))
    go (took i t) = Took-Fresh m i v t

-- With frame 0 reserved, `NULL` says exactly that no frame is free, and nothing has changed.
pub frame_alloc-null :
    (m : Mm)
    → is_used m 0 ≡ true
    → ((frame_alloc m).0 ≡ 0 → AllUsed m 0 frame_count × (frame_alloc m ≡ (0, m)))
      × (AllUsed m 0 frame_count → (frame_alloc m).0 ≡ 0)
frame_alloc-null m low = go (frame_alloc-Search m)
  where
    go :
        Search m 0 frame_count (frame_alloc m)
        → ((frame_alloc m).0 ≡ 0 → AllUsed m 0 frame_count × (frame_alloc m ≡ (0, m)))
          × (AllUsed m 0 frame_count → (frame_alloc m).0 ≡ 0)
    go (full all e) = (λ _. (all, e), λ _. ap (λ (r : ℕ × Mm). r.0) e)
    go (took i t) =
        let clash : i ≡ 0 → ⊥ = λ z. false≢true (sym t.was_free ∙ ap (is_used m) z ∙ low) in
        let addr : (frame_alloc m).0 ≡ i * frame_size = ap (λ (r : ℕ × Mm). r.0) t.result in
        (
          λ z. absurd (clash (omega (arith, addr, z))),
          λ all. absurd (false≢true (sym t.was_free ∙ all i t.above t.below)),
        )

-- The frame that is handed out is the lowest free one.
pub frame_alloc-lowest :
    (m : Mm) (k : ℕ)
    → k < frame_count
    → AllUsed m 0 k
    → is_used m k ≡ false
    → (frame_alloc m).0 ≡ k * frame_size
frame_alloc-lowest m k lt all free = go (frame_alloc-Search m)
  where
    go : Search m 0 frame_count (frame_alloc m) → (frame_alloc m).0 ≡ k * frame_size
    go (full every e) = absurd (false≢true (sym free ∙ every k (omega arith) lt))
    go (took i t) =
        let addr : (frame_alloc m).0 ≡ i * frame_size = ap (λ (r : ℕ × Mm). r.0) t.result in
        elim (Bool-cases (i == k)) [
          | inl same ↦ let e : i ≡ k = ground arith in addr ∙ ap (λ x. x * frame_size) e
          | inr other ↦ elim (Bool-cases (ltb i k)) [
            | inl less ↦ absurd (false≢true (sym t.was_free ∙ all i (omega arith) (ground arith)))
            | inr more ↦ absurd (false≢true (sym free ∙ t.lowest k (omega arith) (ground arith)))
          ]
        ]
