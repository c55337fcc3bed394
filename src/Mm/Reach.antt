-- ===== src/Mm/Reach.antt =====
-- The states of the allocator of kernel/mm.c that a sequence of calls can reach. The callers
-- (kernel/paging.c) release only frames that they were given, which are frames of the pool.
use nova_kernel.Prelude.{ℕ, ◌/◌, ◌≢◌}
use nova_kernel.Mm.{Mm, frame_size, mm_init, frame_alloc, frame_free, mm_ref_inc, mm_ref_dec}
use nova_kernel.Mm.Refs.{
  IsValid, IsPool, frame_alloc-IsValid, frame_alloc-IsPool, frame_free-IsValid, mm_ref_inc-IsValid,
  mm_ref_dec-IsValid,
}
use nova_kernel.Mm.Init.{mm_init-IsValid}

pub data Step (m : Mm) : Mm → Type 0 where
  alloc : Step m (frame_alloc m).1
  free : (a : ℕ) → IsPool (a / frame_size) → Step m (frame_free a m)
  ref_inc : (i : ℕ) → Step m (mm_ref_inc i m)
  ref_dec : (i : ℕ) → IsPool i → Step m (mm_ref_dec i m)

pub data Reach : Mm → Type 0 where
  start : Reach mm_init
  next : {m m' : Mm} → Reach m → Step m m' → Reach m'

Step-IsValid : {m m' : Mm} → Step m m' → IsValid m → IsValid m'
Step-IsValid alloc v = frame_alloc-IsValid v
Step-IsValid (free a p) v = frame_free-IsValid a p v
Step-IsValid (ref_inc i) v = mm_ref_inc-IsValid i v
Step-IsValid (ref_dec i p) v = mm_ref_dec-IsValid i p v

pub Reach-IsValid : {m : Mm} → Reach m → IsValid m
Reach-IsValid start = mm_init-IsValid.0
Reach-IsValid (next r s) = Step-IsValid s (Reach-IsValid r)

-- In every state that calls of the allocator lead to from `mm_init`, where frames of the pool
-- alone are released, the bitmap and the counts are bytes, no reserved frame is free, and an
-- address that `frame_alloc` returns is one of a frame in 0x130000..0x2FFFFF.
pub Reach-safe :
    {m : Mm}
    → Reach m
    → IsValid m × ((frame_alloc m).0 ≢ 0 → IsPool ((frame_alloc m).0 / frame_size))
Reach-safe r = (Reach-IsValid r, λ n. frame_alloc-IsPool (Reach-IsValid r) n)
