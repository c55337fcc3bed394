-- ===== src/Mm/Init.antt =====
-- What `mm_init` of kernel/mm.c reserves.
use nova_kernel.Prelude.{
  ℕ, zero, suc, ◌+◌, ◌%◌, ◌<◌, ◌≤◌, ◌↔◌, ◌≡◌, refl, ap, ◌∙◌, true, false, ◌&&◌, ◌||◌, arith, leb,
  ltb, for_range, for_range_inv,
}
use nova_kernel.Mm.{
  set_used, Mm, frame_count, is_used, mark_used, mm_init, count_free, mm_free_frames,
}
use nova_kernel.Prelude.Bytes.{test_bit_zero}
use nova_kernel.Mm.Bitmap.{IsBytes, is_used-set_used, set_used-IsBytes}
use nova_kernel.Mm.Alloc.{AllUsed}
use nova_kernel.Mm.Refs.{IsValid, IsPool}

-- `s` is `m` with the frames of [lo, k) marked.
record Marked (m : Mm) (lo k : ℕ) (s : Mm) : Type 0 where
  bytes : IsBytes s
  refs : s.frame_refs ≡ m.frame_refs
  uses : (j : ℕ) → is_used s j ≡ ((leb lo j && ltb j k) || is_used m j)

mark_used-Marked :
    (m : Mm) (lo k : ℕ) (s : Mm)
    → lo ≤ k
    → k < frame_count
    → Marked m lo k s
    → Marked m lo (k + 1) (mark_used k s)
unfolding mark_used
mark_used-Marked m lo k s a b p =
    let small : ltb k frame_count ≡ true = ground arith in
    rw small (record {
      bytes = set_used-IsBytes s k p.bytes;
      refs = unfold set_used in p.refs;
      uses = λ j. ground (arith, is_used-set_used s k j p.bytes, p.uses j);
    })

for_range-Marked :
    (m : Mm) (lo hi n : ℕ)
    → IsBytes m
    → lo + n ≡ hi
    → hi ≤ frame_count
    → Marked m lo hi (for_range n lo mark_used m)
for_range-Marked m lo hi n v e small =
    for_range_inv (Marked m lo) mark_used lo hi n m e
      (λ k t a b p. mark_used-Marked m lo k t a (omega arith) p)
      (record { bytes = v; refs = refl; uses = λ j. ground arith })

abbrev zeroed : Mm
zeroed = record { bitmap = λ _. 0; frame_refs = λ _. 0 }

abbrev low : Mm
low = for_range 256 0 mark_used zeroed

abbrev kernel : Mm
kernel = for_range 48 256 mark_used low

zeroed-free : (j : ℕ) → is_used zeroed j ≡ false
unfolding is_used
zeroed-free j = test_bit_zero (j % 8) (omega arith)

low-Marked : Marked zeroed 0 256 low
low-Marked = for_range-Marked zeroed 0 256 256 (λ i. omega arith) (omega arith) (omega arith)

kernel-Marked : Marked low 256 304 kernel
kernel-Marked = for_range-Marked low 256 304 48 low-Marked.bytes (omega arith) (omega arith)

mm_init-Marked : Marked kernel 768 1024 mm_init
unfolding mm_init
mm_init-Marked =
    for_range-Marked kernel 768 1024 256 kernel-Marked.bytes (omega arith) (omega arith)

-- the frames that are in use after `mm_init`
pub is_used-mm_init : (j : ℕ) → j < frame_count → is_used mm_init j ≡ (ltb j 304 || leb 768 j)
is_used-mm_init j lt =
    ground (arith, mm_init-Marked.uses j, kernel-Marked.uses j, low-Marked.uses j, zeroed-free j)

count_free-full :
    (n lo : ℕ) (m : Mm) (acc : ℕ) → AllUsed m lo (lo + n) → count_free n lo m acc ≡ acc
unfolding count_free
count_free-full zero lo m acc all = refl
count_free-full (suc n) lo m acc all =
    rw (all lo (omega arith) (omega arith))
      (count_free-full n (lo + 1) m acc (λ j a b. all j (omega arith) (omega arith)))

count_free-empty :
    (n lo : ℕ) (m : Mm) (acc : ℕ)
    → ((j : ℕ) → lo ≤ j → j < lo + n → is_used m j ≡ false)
    → count_free n lo m acc ≡ acc + n
unfolding count_free
count_free-empty zero lo m acc none = omega arith
count_free-empty (suc n) lo m acc none = rw (none lo (omega arith) (omega arith)) (
    count_free-empty n (lo + 1) m (acc + 1) (λ j a b. none j (omega arith) (omega arith))
    ∙ omega arith)

count_free-split :
    (a b lo : ℕ) (m : Mm) (acc : ℕ)
    → count_free (a + b) lo m acc ≡ count_free b (lo + a) m (count_free a lo m acc)
unfolding count_free
count_free-split zero b lo m acc =
    let e : zero + b ≡ b = omega arith in let f : lo + zero ≡ lo = omega arith in rw (e, f)
count_free-split (suc a) b lo m acc =
    let e : suc a + b ≡ suc (a + b) = omega arith in
    let f : lo + suc a ≡ lo + 1 + a = omega arith in rw (e, f) (count_free-split a b (lo + 1) m _)

count-mm_init : mm_free_frames mm_init ≡ 464
unfolding mm_free_frames
count-mm_init =
    count_free-split 304 720 0 mm_init 0
    ∙ ap (count_free 720 304 mm_init)
        (count_free-full 304 0 mm_init 0 (λ j a b. ground (arith, is_used-mm_init j)))
    ∙ count_free-split 464 256 304 mm_init 0
    ∙ ap (count_free 256 768 mm_init)
        (count_free-empty 464 304 mm_init 0 (λ j a b. ground (arith, is_used-mm_init j)))
    ∙ count_free-full 256 768 mm_init 464 (λ j a b. ground (arith, is_used-mm_init j))

-- The state that `mm_init` builds satisfies the invariant, no page is shared in it, and exactly
-- the 464 frames of 0x130000..0x2FFFFF are free.
pub mm_init-IsValid :
    IsValid mm_init
    × ((i : ℕ) → mm_init.frame_refs i ≡ 0)
    × (mm_free_frames mm_init ≡ 464)
    × ((j : ℕ) → j < frame_count → (is_used mm_init j ≡ false) ↔ IsPool j)
mm_init-IsValid =
    let e : mm_init.frame_refs ≡ zeroed.frame_refs =
      mm_init-Marked.refs ∙ kernel-Marked.refs ∙ low-Marked.refs in
    (
      record {
        bytes = mm_init-Marked.bytes;
        counts = λ i. rw e (omega arith);
        low = λ j a b. ground (arith, is_used-mm_init j);
        high = λ j a b. ground (arith, is_used-mm_init j);
      },
      λ i. rw e refl,
      count-mm_init,
      λ j lt. (λ h. ground (arith, is_used-mm_init j), λ h. ground (arith, is_used-mm_init j)),
    )
