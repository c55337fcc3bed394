-- ===== src/Kheap.antt =====
-- The kernel heap, kernel/kheap.c: a first-fit allocator whose block headers form a linked list
-- in the arena 0x300000..0x3FFFFF. The headers are a store from addresses to `block_t`; an address
-- is a u32, and `NULL` is 0. A walk along `next` takes fuel, and `none` says that the fuel ran out;
-- `walk_fuel` is above the number of headers that fit into the arena.
pub mod Chain
pub mod Take
pub mod Malloc
pub mod Free
pub mod Used
pub mod Wrap
mod Tests
use nova_kernel.Prelude.{
  ℕ, zero, suc, ◌+◌, ◌-◌, ◌*◌, ◌/◌, Bool, not, ◌&&◌, ◌||◌, leb, ◌==◌, if◌then◌else◌, update, Option,
  none, some,
}
use nova_kernel.Prelude.Words.{add32, sub32}

-- `block_t`
pub record Block : Type 0 where
  pub size : ℕ
  pub free : ℕ
  pub next : ℕ

-- `heap_head`, and the header that stands at each address
pub record Heap : Type 0 where
  pub heap_head : ℕ
  pub header : ℕ → Block

abbrev pub heap_start : ℕ
heap_start = 0x300000

abbrev pub heap_end : ℕ
heap_end = 0x400000

-- sizeof(block_t)
abbrev pub header_size : ℕ
header_size = 12

unfoldable pub walk_fuel : ℕ
walk_fuel = 0x100000

abbrev pub write_header : Heap → ℕ → Block → Heap
write_header h b k = record h { header = update h.header b k }

unfoldable pub kheap_init : Heap → Heap
kheap_init h =
    write_header (record h { heap_head = heap_start }) heap_start
      (record { size = heap_end - heap_start - header_size; free = 1; next = 0 })

unfoldable pub heap_split : ℕ → ℕ → Heap → Heap
heap_split b need h =
    let total = (h.header b).size in
    let rest = add32 (add32 b header_size) need in
    let remainder : Block = record {
      size = sub32 (sub32 total need) header_size;
      free = 1;
      next = (h.header b).next;
    } in
    let h' = write_header h rest remainder in
    if leb (sub32 total need) (header_size + 8)
    then h
    else write_header h' b (record (h'.header b) { size = need; next = rest })

-- if (size == 0) size = 8; size = (size + 7) & ~7u;
unfoldable pub round_size : ℕ → ℕ
round_size size = add32 (if size == 0 then 8 else size) 7 / 8 * 8

-- The loop of `kmalloc`, at the block `b`.
unfoldable pub first_fit : ℕ → ℕ → ℕ → Heap → Option (ℕ × Heap)
first_fit zero size b h = none
first_fit (suc fuel) size b h =
    let rest = first_fit fuel size (h.header b).next h in
    let fits = not ((h.header b).free == 0) && leb size (h.header b).size in
    let h' = heap_split b size h in
    let found : ℕ × Heap =
      (add32 b header_size, write_header h' b (record (h'.header b) { free = 0 })) in
    if b == 0 then some (0, h) else if fits then some found else rest

unfoldable pub kmalloc : ℕ → Heap → Option (ℕ × Heap)
kmalloc size h = first_fit walk_fuel (round_size size) h.heap_head h

-- The loop of `kfree`, which merges the blocks that follow `b` into it while they are free.
unfoldable pub coalesce : ℕ → ℕ → Heap → Option Heap
coalesce zero b h = none
coalesce (suc fuel) b h =
    let next = (h.header b).next in
    let k = record (h.header b) {
      size = add32 (h.header b).size (add32 header_size (h.header next).size);
      next = (h.header next).next;
    } in
    let rest = coalesce fuel b (write_header h b k) in
    if not (next == 0) && not ((h.header next).free == 0) then rest else some h

unfoldable pub kfree : ℕ → Heap → Option Heap
kfree ptr h =
    let b = sub32 ptr header_size in
    if ptr == 0
    then some h
    else coalesce walk_fuel b (write_header h b (record (h.header b) { free = 1 }))

-- The loop of `kheap_used`.
unfoldable pub used_from : ℕ → ℕ → ℕ → Heap → Option ℕ
used_from zero b acc h = none
used_from (suc fuel) b acc h =
    let k = h.header b in
    let rest = used_from fuel k.next (if k.free == 0 then add32 acc k.size else acc) h in
    if b == 0 then some acc else rest

unfoldable pub kheap_used : Heap → Option ℕ
kheap_used h = used_from walk_fuel h.heap_head 0 h
