-- ===== src/Mm.antt =====
-- The physical frame allocator, kernel/mm.c: a bitmap of 1024 frames and the reference counts of
-- the pages that copy-on-write shares. An address is a number; `NULL` is 0. The two static arrays
-- are functions from the index to a byte.
pub mod Bitmap
pub mod Alloc
pub mod Refs
pub mod Count
pub mod Init
pub mod Reach
mod Tests
use nova_kernel.Prelude.{
  ℕ, zero, suc, ◌+◌, ◌-◌, ◌*◌, ◌/◌, ◌%◌, Bool, true, false, not, ◌&&◌, ltb, leb, ◌==◌,
  if◌then◌else◌, update, for_range,
}
use nova_kernel.Prelude.Bytes.{test_bit, set_bit, clear_bit}

abbrev pub frame_size : ℕ
frame_size = 0x1000

-- MEM_END / FRAME_SIZE
abbrev pub frame_count : ℕ
frame_count = 1024

pub record Mm : Type 0 where
  pub bitmap : ℕ → ℕ
  pub frame_refs : ℕ → ℕ

-- bitmap[i / 8] & (1 << (i % 8))
unfoldable pub is_used : Mm → ℕ → Bool
is_used m i = test_bit (m.bitmap (i / 8)) (i % 8)

-- bitmap[i / 8] |= (u8)(1 << (i % 8))
unfoldable pub set_used : Mm → ℕ → Mm
set_used m i = record m { bitmap = update m.bitmap (i / 8) (set_bit (m.bitmap (i / 8)) (i % 8)) }

-- bitmap[i / 8] &= (u8)~(1 << (i % 8))
unfoldable pub set_free : Mm → ℕ → Mm
set_free m i = record m { bitmap = update m.bitmap (i / 8) (clear_bit (m.bitmap (i / 8)) (i % 8)) }

unfoldable pub mark_used : ℕ → Mm → Mm
mark_used fi m = if ltb fi frame_count then set_used m fi else m

-- Both `memset` calls write every byte, so nothing of the old state is left.
unfoldable pub mm_init : Mm
unfolding mark_used set_used
mm_init =
    let zeroed : Mm = record { bitmap = λ _. 0; frame_refs = λ _. 0 } in
    let low = for_range (0x100000 / frame_size) 0 mark_used zeroed in
    let kernel =
      for_range (0x130000 / frame_size - 0x100000 / frame_size) (0x100000 / frame_size) mark_used
        low in
    for_range (frame_count - 0x300000 / frame_size) (0x300000 / frame_size) mark_used kernel

-- The loop of `frame_alloc`, with `n` frames left to look at from `i` on.
unfoldable pub alloc_from : ℕ → ℕ → Mm → ℕ × Mm
alloc_from zero i m = (0, m)
alloc_from (suc n) i m =
    let rest = alloc_from n (i + 1) m in
    if not (is_used m i) then (i * frame_size, set_used m i) else rest

unfoldable pub frame_alloc : Mm → ℕ × Mm
frame_alloc m = alloc_from frame_count 0 m

unfoldable pub frame_free : ℕ → Mm → Mm
frame_free addr m = let i = addr / frame_size in if leb frame_count i then m else set_free m i

-- The loop of `mm_free_frames`, with `n` frames left from `i` on.
unfoldable pub count_free : ℕ → ℕ → Mm → ℕ → ℕ
count_free zero i m acc = acc
count_free (suc n) i m acc = count_free n (i + 1) m (if not (is_used m i) then acc + 1 else acc)

unfoldable pub mm_free_frames : Mm → ℕ
mm_free_frames m = count_free frame_count 0 m 0

unfoldable pub mm_ref_inc : ℕ → Mm → Mm
mm_ref_inc fi m =
    if ltb fi frame_count && ltb (m.frame_refs fi) 255
    then record m { frame_refs = update m.frame_refs fi (m.frame_refs fi + 1) }
    else m

-- if (frame_refs[fi] > 0) frame_refs[fi]--;
unfoldable pub drop_ref : ℕ → Mm → Mm
drop_ref fi m =
    if ltb 0 (m.frame_refs fi)
    then record m { frame_refs = update m.frame_refs fi (m.frame_refs fi - 1) }
    else m

unfoldable pub mm_ref_dec : ℕ → Mm → Mm
unfolding drop_ref
mm_ref_dec fi m =
    if leb frame_count fi
    then m
    else (let m' = drop_ref fi m in
        if (m'.frame_refs fi == 0) && is_used m' fi then frame_free (fi * frame_size) m' else m')
