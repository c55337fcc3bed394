-- ===== src/Mm/Tests.antt =====
-- The theorems on kernel/mm.c at concrete states.
use nova_kernel.Prelude.{◌/◌, ◌≡◌, refl, ◌≢◌, true, arith, ◌==◌, if◌then◌else◌}
use nova_kernel.Prelude.Bytes.{test_bit}
use nova_kernel.Mm.{
  Mm, frame_size, is_used, alloc_from, frame_alloc, mm_init, mm_ref_inc, mm_ref_dec,
}
use nova_kernel.Mm.Bitmap.{IsBytes}
use nova_kernel.Mm.Refs.{IsValid, IsPool}
use nova_kernel.Mm.Reach.{Reach, start, next, alloc, ref_inc, ref_dec, Reach-safe}

-- frames 0 and 2 are in use, and frame 2 has two references
abbrev two_used : Mm
two_used = record {
  bitmap = λ i. if i == 0 then 5 else 0;
  frame_refs = λ i. if i == 2 then 2 else 0;
}

two_used-IsBytes : IsBytes two_used
two_used-IsBytes i = ground arith

two_used_zero : is_used two_used 0 ≡ true
unfolding is_used test_bit
two_used_zero = refl

two_used_two : is_used two_used 2 ≡ true
unfolding is_used test_bit
two_used_two = refl

first_free : (frame_alloc two_used).0 ≡ 0x1000
unfolding frame_alloc alloc_from is_used test_bit
first_free = refl

shared : Mm
shared = mm_ref_dec 400 (mm_ref_inc 400 (frame_alloc mm_init).1)

shared-Reach : Reach shared
unfolding shared
shared-Reach = next (next (next start alloc) (ref_inc 400)) (ref_dec 400 (omega arith, omega arith))

Reach-safe_example :
    IsValid shared × ((frame_alloc shared).0 ≢ 0 → IsPool ((frame_alloc shared).0 / frame_size))
Reach-safe_example = Reach-safe shared-Reach
