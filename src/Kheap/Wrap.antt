-- ===== src/Kheap/Wrap.antt =====
-- The rounding of kernel/kheap.c at the top of the u32 range.
use nova_kernel.Prelude.{ℕ, ◌+◌, ◌-◌, ◌^◌, ◌<◌, ◌≡◌, ◌≢◌, true, arith, List, some}
use nova_kernel.Kheap.{Heap, heap_start, round_size, kmalloc}
use nova_kernel.Kheap.Chain.{Cell, Holds, BlockAt}
use nova_kernel.Kheap.Malloc.{Request, no_room, granted, kmalloc_lem}

round_size_wraps : (n : ℕ) → 2 ^ 32 - 8 < n → n < 2 ^ 32 → round_size n ≡ 0
unfolding round_size
round_size_wraps n lo hi = ground arith

-- A request for more than 2^32 - 8 bytes wraps to 0 when it is rounded, so `kmalloc` serves it
-- from any free block at all, although no block of the arena is that large.
pub kmalloc_wraps :
    (h : Heap) (cs : List Cell) (x size : ℕ) (c : Cell)
    → Holds h cs
    → BlockAt heap_start cs x c
    → c.free ≡ true
    → 2 ^ 32 - 8 < size
    → size < 2 ^ 32
    → (ptr : ℕ) × (h' : Heap) × (kmalloc size h ≡ some (ptr, h')) × (ptr ≢ 0)
kmalloc_wraps h cs x size c v b free lo hi = go (kmalloc_lem h cs size v)
  where
    go : Request h size cs → (ptr : ℕ) × (h' : Heap) × (kmalloc size h ≡ some (ptr, h')) × (ptr ≢ 0)
    go (no_room all e) = absurd (omega (arith, all x c b free, round_size_wraps size lo hi))
    go (granted y h' cs' e s w) = (y + 12, h', e, omega arith)
