-- ===== src/Mm/Count.antt =====
-- The free count of kernel/mm.c against the bitmap.
use nova_kernel.Prelude.{
  ℕ, zero, suc, ◌+◌, ◌*◌, ◌/◌, ◌<◌, ◌≤◌, ◌≡◌, refl, sym, ap, ◌∙◌, ◌≢◌, true, false, ◌==◌, arith,
  Bool-cases, if◌then◌else◌, inl, inr, ==_iff, leb,
}
use mathlib.Core.Bool.{false≢true}
use nova_kernel.Mm.{
  Mm, frame_size, frame_count, is_used, set_used, set_free, frame_alloc, frame_free, count_free,
  mm_free_frames,
}
use nova_kernel.Mm.Bitmap.{IsBytes, is_used-set_used, is_used-set_free}
use nova_kernel.Mm.Alloc.{Search, full, took, frame_alloc-Search}

-- The two states agree on every frame of [lo, lo + n).
count_free-congr :
    (n lo : ℕ) (m m' : Mm) (acc : ℕ)
    → ((j : ℕ) → lo ≤ j → j < lo + n → is_used m j ≡ is_used m' j)
    → count_free n lo m acc ≡ count_free n lo m' acc
unfolding count_free
count_free-congr zero lo m m' acc same = refl
count_free-congr (suc n) lo m m' acc same =
    rw (same lo (omega arith) (omega arith))
      (count_free-congr n (lo + 1) m m' _ (λ j a b. same j (omega arith) (omega arith)))

count_free-acc :
    (n lo : ℕ) (m : Mm) (acc : ℕ) → count_free n lo m (acc + 1) ≡ count_free n lo m acc + 1
unfolding count_free
count_free-acc zero lo m acc = refl
count_free-acc (suc n) lo m acc = elim (Bool-cases (is_used m lo)) [
  | inl used ↦ rw used (count_free-acc n (lo + 1) m acc)
  | inr unused ↦ rw unused (count_free-acc n (lo + 1) m (acc + 1))
]

-- One frame `i` of [lo, lo + n) is free in `m` and used in `m'`; the others agree.
pub record Flip (m m' : Mm) (i : ℕ) : Type 0 where
  pub was : is_used m i ≡ false
  pub is : is_used m' i ≡ true
  pub same : (j : ℕ) → i ≢ j → is_used m j ≡ is_used m' j

count_free-Flip :
    (n lo : ℕ) (m m' : Mm) (acc i : ℕ)
    → lo ≤ i
    → i < lo + n
    → Flip m m' i
    → count_free n lo m acc ≡ count_free n lo m' acc + 1
unfolding count_free
count_free-Flip zero lo m m' acc i a b f = absurd (omega arith)
count_free-Flip (suc n) lo m m' acc i a b f = elim (Bool-cases (lo == i)) [
  | inl here ↦
      let e : lo ≡ i = (==_iff lo i).0 here in
      rw (e, f.was, f.is)
        (count_free-acc n (i + 1) m acc
          ∙ ap (λ k. k + 1) (count_free-congr n (i + 1) m m' acc (λ j c d. f.same j (omega arith))))
  | inr away ↦
      let ne : i ≢ lo = ground arith in
      rw (f.same lo ne) (count_free-Flip n (lo + 1) m m' _ i (ground arith) (omega arith) f)
]

pub set_used-Flip : (m : Mm) (i : ℕ) → IsBytes m → is_used m i ≡ false → Flip m (set_used m i) i
set_used-Flip m i v e = record {
  was = e;
  is = ground (arith, is_used-set_used m i i v);
  same = λ j ne. ground (arith, is_used-set_used m i j v);
}

pub set_free-Flip : (m : Mm) (i : ℕ) → IsBytes m → is_used m i ≡ true → Flip (set_free m i) m i
set_free-Flip m i v e = record {
  was = ground (arith, is_used-set_free m i i v);
  is = e;
  same = λ j ne. ground (arith, is_used-set_free m i j v);
}

-- A successful `frame_alloc` lowers `mm_free_frames` by exactly one, and one that returns `NULL`
-- leaves it at what it was, given that frame 0 is reserved.
pub mm_free_frames-alloc :
    (m : Mm)
    → IsBytes m
    → is_used m 0 ≡ true
    → mm_free_frames m
      ≡ mm_free_frames (frame_alloc m).1 + (if (frame_alloc m).0 == 0 then 0 else 1)
unfolding mm_free_frames
mm_free_frames-alloc m v low = go (frame_alloc-Search m)
  where
    go :
        Search m 0 frame_count (frame_alloc m)
        → count_free frame_count 0 m 0
          ≡ count_free frame_count 0 (frame_alloc m).1 0 + (if (frame_alloc m).0 == 0 then 0 else 1)
    go (full all e) = rw e (omega arith)
    go (took i t) =
        let b = t.below in
        let pos : i ≢ 0 = λ z. false≢true (sym t.was_free ∙ ap (is_used m) z ∙ low) in
        let ne : (i * frame_size == 0) ≡ false = ground arith in
        rw (t.result, ne)
          (count_free-Flip frame_count 0 m (set_used m i) 0 i (omega arith) (omega arith)
            (set_used-Flip m i v t.was_free))

-- Freeing a frame that is in use raises `mm_free_frames` by one.
pub mm_free_frames-free :
    (m : Mm) (a : ℕ)
    → IsBytes m
    → a < frame_count * frame_size
    → is_used m (a / frame_size) ≡ true
    → mm_free_frames (frame_free a m) ≡ mm_free_frames m + 1
unfolding mm_free_frames frame_free
mm_free_frames-free m a v lo used =
    let small : leb frame_count (a / frame_size) ≡ false = ground arith in
    rw small (
      count_free-Flip frame_count 0 (set_free m (a / frame_size)) m 0 (a / frame_size) (omega arith)
        (omega arith) (set_free-Flip m (a / frame_size) v used))
