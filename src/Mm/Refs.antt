-- ===== src/Mm/Refs.antt =====
-- The reference counts of kernel/mm.c, and the invariant of the allocator.
use nova_kernel.Prelude.{
  ℕ, ◌+◌, ◌-◌, ◌*◌, ◌/◌, ◌<◌, ◌≤◌, ◌≡◌, ap, ◌∙◌, ◌≢◌, true, false, ◌&&◌, ◌==◌, arith, Bool-cases,
  if◌then◌else◌, inl, inr, leb, ltb,
}
use nova_kernel.Mm.{
  Mm, frame_size, frame_count, is_used, set_used, set_free, frame_alloc, frame_free, mm_ref_inc,
  mm_ref_dec, drop_ref,
}
use nova_kernel.Mm.Bitmap.{
  IsBytes, is_used-set_used, is_used-set_free, set_used-IsBytes, set_free-IsBytes,
}
use nova_kernel.Mm.Alloc.{Search, full, took, frame_alloc-Search, AllUsed}

-- The frames outside 0x130000..0x2FFFFF are reserved: the kernel image and below, and the heap.
abbrev pub IsPool : ℕ → Type 0
IsPool i = (304 ≤ i) × (i < 768)

-- Both arrays hold bytes, and no reserved frame is free.
pub record IsValid (m : Mm) : Type 0 where
  pub bytes : IsBytes m
  pub counts : (i : ℕ) → m.frame_refs i < 256
  pub low : AllUsed m 0 304
  pub high : AllUsed m 768 1024

is_used-drop_ref : (m : Mm) (i j : ℕ) → is_used (drop_ref i m) j ≡ is_used m j
unfolding is_used drop_ref
is_used-drop_ref m i j = ground arith

is_used-mm_ref_inc : (m : Mm) (i j : ℕ) → is_used (mm_ref_inc i m) j ≡ is_used m j
unfolding is_used mm_ref_inc
is_used-mm_ref_inc m i j = ground arith

drop_ref-IsValid : {m : Mm} (i : ℕ) → IsValid m → IsValid (drop_ref i m)
drop_ref-IsValid {m} i v = record {
  bytes = λ k. unfold drop_ref in ground (arith, v.bytes k);
  counts = λ k. unfold drop_ref in ground (arith, v.counts k, v.counts i);
  low = λ j a b. is_used-drop_ref m i j ∙ v.low j a b;
  high = λ j a b. is_used-drop_ref m i j ∙ v.high j a b;
}

-- `mm_ref_inc` keeps the invariant: the count saturates and never wraps.
pub mm_ref_inc-IsValid : {m : Mm} (i : ℕ) → IsValid m → IsValid (mm_ref_inc i m)
mm_ref_inc-IsValid {m} i v = record {
  bytes = λ k. unfold mm_ref_inc in ground (arith, v.bytes k);
  counts = λ k. unfold mm_ref_inc in ground (arith, v.counts k, v.counts i);
  low = λ j a b. is_used-mm_ref_inc m i j ∙ v.low j a b;
  high = λ j a b. is_used-mm_ref_inc m i j ∙ v.high j a b;
}

set_free-IsValid : {m : Mm} (i : ℕ) → IsPool i → IsValid m → IsValid (set_free m i)
set_free-IsValid {m} i p v = record {
  bytes = set_free-IsBytes m i v.bytes;
  counts = unfold set_free in v.counts;
  low = λ j a b. ground (arith, is_used-set_free m i j v.bytes, v.low j a b, p);
  high = λ j a b. ground (arith, is_used-set_free m i j v.bytes, v.high j a b, p);
}

set_used-IsValid : {m : Mm} (i : ℕ) → IsValid m → IsValid (set_used m i)
set_used-IsValid {m} i v = record {
  bytes = set_used-IsBytes m i v.bytes;
  counts = unfold set_used in v.counts;
  low = λ j a b. ground (arith, is_used-set_used m i j v.bytes, v.low j a b);
  high = λ j a b. ground (arith, is_used-set_used m i j v.bytes, v.high j a b);
}

-- `frame_alloc` keeps the invariant.
pub frame_alloc-IsValid : {m : Mm} → IsValid m → IsValid (frame_alloc m).1
frame_alloc-IsValid {m} v = go (frame_alloc-Search m)
  where
    go : Search m 0 frame_count (frame_alloc m) → IsValid (frame_alloc m).1
    go (full all e) = rw e v
    go (took i t) = rw t.result (set_used-IsValid i v)

-- `frame_free` of a frame of the pool keeps the invariant.
pub frame_free-IsValid :
    {m : Mm} (a : ℕ) → IsPool (a / frame_size) → IsValid m → IsValid (frame_free a m)
unfolding frame_free
frame_free-IsValid a p v =
    let small : leb frame_count (a / frame_size) ≡ false = ground arith in
    rw small (set_free-IsValid (a / frame_size) p v)

-- `mm_ref_dec` of a frame of the pool keeps the invariant.
pub mm_ref_dec-IsValid : {m : Mm} (i : ℕ) → IsPool i → IsValid m → IsValid (mm_ref_dec i m)
unfolding mm_ref_dec
mm_ref_dec-IsValid {m} i p v =
    let small : leb frame_count i ≡ false = ground arith in
    let e : i * frame_size / frame_size ≡ i = omega arith in
    let m' = drop_ref i m in
    elim (Bool-cases ((m'.frame_refs i == 0) && is_used m' i)) [
      | inl last ↦
          rw (small, last) (frame_free-IsValid (i * frame_size) (rw e p) (drop_ref-IsValid i v))
      | inr more ↦ rw (small, more) (drop_ref-IsValid i v)
    ]

-- The address the allocator gives out is never `NULL`'s frame nor another reserved one.
pub frame_alloc-IsPool :
    {m : Mm} → IsValid m → (frame_alloc m).0 ≢ 0 → IsPool ((frame_alloc m).0 / frame_size)
frame_alloc-IsPool {m} v ne = go (frame_alloc-Search m)
  where
    go : Search m 0 frame_count (frame_alloc m) → IsPool ((frame_alloc m).0 / frame_size)
    go (full all e) = absurd (ne (ap (λ (r : ℕ × Mm). r.0) e))
    go (took i t) =
        let e : i * frame_size / frame_size ≡ i = omega arith in
        rw (t.result, e) (grind (arith, t.was_free, t.below, v.low i, v.high i))

refs-drop_ref :
    (m : Mm) (i j : ℕ)
    → (drop_ref i m).frame_refs j ≡ (if i == j then m.frame_refs i - 1 else m.frame_refs j)
unfolding drop_ref
refs-drop_ref m i j = ground arith

refs-mm_ref_inc :
    (m : Mm) (i j : ℕ)
    → i < frame_count
    → m.frame_refs i < 255
    → (mm_ref_inc i m).frame_refs j ≡ (if i == j then m.frame_refs i + 1 else m.frame_refs j)
unfolding mm_ref_inc
refs-mm_ref_inc m i j lt room = ground arith

-- For a frame in use: `mm_ref_dec` takes one reference away, gives the frame back exactly when
-- none is left, and touches no other frame or count.
pub mm_ref_dec_lem :
    (m : Mm) (i j : ℕ)
    → IsBytes m
    → i < frame_count
    → is_used m i ≡ true
    → ((mm_ref_dec i m).frame_refs j ≡ (if i == j then m.frame_refs i - 1 else m.frame_refs j))
      × (is_used (mm_ref_dec i m) j ≡ (if i == j then ltb 1 (m.frame_refs i) else is_used m j))
unfolding mm_ref_dec frame_free
mm_ref_dec_lem m i j v lt used =
    let small : leb frame_count i ≡ false = ground arith in
    let e : i * frame_size / frame_size ≡ i = omega arith in
    let m' = drop_ref i m in
    let bytes : IsBytes m' = λ k. unfold drop_ref in ground (arith, v k) in
    let still : is_used m' i ≡ true = is_used-drop_ref m i i ∙ used in
    elim (Bool-cases (m'.frame_refs i == 0)) [
      | inl last ↦
          rw (small, last, still, e, small)
            (
              unfold set_free in refs-drop_ref m i j,
              ground (
                arith,
                is_used-set_free m' i j bytes,
                is_used-drop_ref m i j,
                refs-drop_ref m i i,
              ),
            )
      | inr more ↦
          rw (small, more)
            (refs-drop_ref m i j, ground (arith, is_used-drop_ref m i j, refs-drop_ref m i i, used))
    ]

-- Below saturation, a reference that is taken to a frame in use and given up again leaves every
-- count and every frame as it was, if the frame had a reference before.
pub mm_ref_dec-inc :
    (m : Mm) (i j : ℕ)
    → IsBytes m
    → i < frame_count
    → is_used m i ≡ true
    → 0 < m.frame_refs i
    → m.frame_refs i < 255
    → ((mm_ref_dec i (mm_ref_inc i m)).frame_refs j ≡ m.frame_refs j)
      × (is_used (mm_ref_dec i (mm_ref_inc i m)) j ≡ is_used m j)
mm_ref_dec-inc m i j v lt used pos room =
    let bytes : IsBytes (mm_ref_inc i m) = λ k. unfold mm_ref_inc in ground (arith, v k) in
    let still : is_used (mm_ref_inc i m) i ≡ true = is_used-mm_ref_inc m i i ∙ used in
    let (counts, uses) = mm_ref_dec_lem (mm_ref_inc i m) i j bytes lt still in
    (
      ground (arith, counts, refs-mm_ref_inc m i i lt room, refs-mm_ref_inc m i j lt room),
      ground (arith, uses, used, is_used-mm_ref_inc m i j, refs-mm_ref_inc m i i lt room),
    )
