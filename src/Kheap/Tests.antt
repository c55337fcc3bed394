-- ===== src/Kheap/Tests.antt =====
-- Runs of kernel/kheap.c, and its theorems at concrete heaps.
use nova_kernel.Prelude.{
  ℕ, ◌+◌, ◌≤◌, ◌≡◌, refl, ◌≢◌, ◌↔◌, ◌⊎◌, inl, inr, ◌==◌, if◌then◌else◌, true, arith, List, [], ◌∷◌,
  some,
}
use nova_kernel.Kheap.{
  Heap, heap_start, heap_end, header_size, heap_split, round_size, first_fit, kmalloc, kfree,
  kheap_init, walk_fuel,
}
use nova_kernel.Kheap.Chain.{Cell, Holds, BlockAt, after, kheap_init-Holds}
use nova_kernel.Kheap.Take.{used, take_block}
use nova_kernel.Kheap.Malloc.{Request, kmalloc_lem, kmalloc-payload}
use nova_kernel.Kheap.Free.{absorb, release, kfree_lem}
use nova_kernel.Kheap.Used.{used-release}

abbrev blank : Heap
blank = record { heap_head = 0; header = λ _. record { size = 0; free = 0; next = 0 } }

abbrev arena : List Cell
arena = record { size = 0xFFFF4; free = true } ∷ []

-- the heap after `kmalloc(100)`
abbrev one_used : Heap
one_used = take_block heap_start 104 (kheap_init blank)

kmalloc_run : kmalloc 100 (kheap_init blank) ≡ some (0x30000C, one_used)
unfolding kmalloc first_fit round_size walk_fuel kheap_init heap_split take_block
kmalloc_run = refl

kmalloc_lem_example : Request (kheap_init blank) 100 arena
kmalloc_lem_example = kmalloc_lem (kheap_init blank) arena 100 (kheap_init-Holds blank)

kmalloc-payload_example :
    (heap_start + header_size ≤ 0x30000C)
    × (0x30000C + 100 ≤ heap_end)
    × ((y s : ℕ)
        → BlockAt heap_start arena y (used s)
        → (after y (used s) ≤ 0x30000C) ⊎ (0x30000C + 100 ≤ y))
kmalloc-payload_example =
    kmalloc-payload (kheap_init blank) arena 100 0x30000C one_used (kheap_init-Holds blank)
      (omega arith) kmalloc_run (omega arith)

-- three blocks, of which the middle one is in use
abbrev cells : List Cell
cells = record { size = 104; free = true } ∷ used 8 ∷ record { size = 0xFFF6C; free = true } ∷ []

abbrev three : Heap
three = record {
  heap_head = heap_start;
  header = λ a.
      if a == heap_start
      then record { size = 104; free = 1; next = 0x300074 }
      else if a == 0x300074
      then record { size = 8; free = 0; next = 0x300088 }
      else record { size = 0xFFF6C; free = 1; next = 0 };
}

three-Holds : Holds three cells
three-Holds = record {
  chain = (refl, refl, refl, (refl, refl, refl, (refl, refl, refl, (refl, refl))));
}

kfree_lem_example :
    (h' : Heap) × (kfree 0x300080 three ≡ some h') × Holds h' (release 0x300074 heap_start cells)
kfree_lem_example = kfree_lem three cells 0x300074 (used 8) three-Holds (inr (inl (refl, refl)))

-- the freed block takes in the one behind it, and not the one before it
release_run :
    release 0x300074 heap_start cells
    ≡ record { size = 104; free = true } ∷ record { size = 0xFFF80; free = true } ∷ []
unfolding release absorb
release_run = refl

used-release_example :
    BlockAt heap_start (release heap_start heap_start cells) 0x300074 (used 8)
    ↔ (BlockAt heap_start cells 0x300074 (used 8) × (◌≢◌ {A = ℕ} 0x300074 heap_start))
used-release_example =
    used-release heap_start cells heap_start (record { size = 104; free = true }) 0x300074 8
      (inl (refl, refl))
