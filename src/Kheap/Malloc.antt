-- ===== src/Kheap/Malloc.antt =====
-- `kmalloc` of kernel/kheap.c: which block it hands out, and what becomes of the others.
use nova_kernel.Prelude.{
  ℕ, zero, suc, ◌+◌, ◌-◌, ◌%◌, ◌^◌, ◌<◌, ◌≤◌, ◌≡◌, refl, sym, ap, ◌∙◌, ◌≢◌, true, false, arith, ◌⊎◌,
  inl, inr, List, [], ◌∷◌, length, Option, none, some, leb, not, ◌==◌, ◌&&◌, ltb, Bool-cases,
}
use mathlib.Core.Bool.{false≢true}
use nova_kernel.Prelude.Words.{add32}
use nova_kernel.Kheap.{
  Heap, heap_end, heap_start, header_size, round_size, first_fit, kmalloc, walk_fuel,
}
use nova_kernel.Kheap.Chain.{
  block_unique, blocks_disjoint, Cell, after, Chain, Holds, BlockAt, Chain-bound, Chain-cons,
  block_below, block_end,
}
use nova_kernel.Kheap.Take.{
  used, Served, Written, take_block, split_cells, split_cells-Served, take_block-Written,
}

-- What a walk from the pointer `p` gives that searches the blocks `cs` from the address `a` on.
pub data Outcome (h : Heap) (need p a : ℕ) (cs : List Cell) (out : Option (ℕ × Heap)) : Type 0 where
  refused :
      ((x : ℕ) (c : Cell) → BlockAt a cs x c → c.free ≡ true → c.size < need)
      → out ≡ some (0, h)
      → Outcome h need p a cs out
  served :
      (x : ℕ) (h' : Heap) (cs' : List Cell)
      → Served need a cs x cs'
      → Written h p a h' cs'
      → out ≡ some (x + 12, h')
      → Outcome h need p a cs out

-- The first block is passed over.
module _ (h : Heap) (a need : ℕ) (c : Cell) (cs : List Cell) (k : Chain h a a (c ∷ cs)) where
  cons-Served :
      {x : ℕ} {cs' : List Cell}
      → Served need (after a c) cs x cs'
      → Served need a (c ∷ cs) x (c ∷ cs')
  cons-Served s = record {
    size = s.size;
    big = s.big;
    placed = inr s.placed;
    source = s.source;
    was = inr s.was;
    was_free = s.was_free;
    kept = λ y t b. elim b [ inl e ↦ inl e | inr d ↦ inr (s.kept y t d) ];
    only = λ y t b. elim b [
      | inl e ↦ inr (inl e)
      | inr d ↦ elim (s.only y t d) [ inl e ↦ inl e | inr o ↦ inr (inr o) ]
    ];
  }

  cons-Written :
      {h' : Heap} {cs' : List Cell}
      → Written h (h.header a).next (after a c) h' cs'
      → Written h a a h' (c ∷ cs')
  cons-Written {h'} {cs'} w = record {
    chain = Chain-cons h' a (h.header a) c cs' (w.below a (omega arith)) k.1 k.2 w.chain;
    head = w.head;
    below = λ y lt. w.below y (omega arith);
  }

  pass :
      (out : Option (ℕ × Heap))
      → (c.free ≡ true → c.size < need)
      → Outcome h need (h.header a).next (after a c) cs out
      → Outcome h need a a (c ∷ cs) out
  pass out small (refused all e) =
      refused
        (λ x d b free. elim b [
          | inl m ↦ rw m.1 (small (ap (λ (t : Cell). t.free) (sym m.1) ∙ free))
          | inr m ↦ all x d m free
        ])
        e
  pass out small (served x h' cs' s w e) = served x h' (c ∷ cs') (cons-Served s) (cons-Written w) e

first_fit-Outcome :
    (fuel need p a : ℕ) (cs : List Cell) (h : Heap)
    → 0 < a
    → Chain h p a cs
    → length cs < fuel
    → Outcome h need p a cs (first_fit fuel need p h)
unfolding first_fit take_block
first_fit-Outcome zero need p a cs h pos k lt = absurd (omega arith)
first_fit-Outcome (suc fuel) need p a [] h pos (e, _) lt = rw e (refused (λ x c b. absurd b) refl)
first_fit-Outcome (suc fuel) need p a (c ∷ cs) h pos k lt =
    let rest =
      first_fit-Outcome fuel need (h.header a).next (after a c) cs h (omega arith) k.3
        (omega arith) in
    let ne : (a == 0) ≡ false = ground arith in
    let fits = not ((h.header a).free == 0) && leb need (h.header a).size in
    let k' : Chain h a a (c ∷ cs) = (refl, k.1, k.2, k.3) in
    rw (k.0, ne)
      (elim (Bool-cases fits) [
        | inl good ↦ rw good (
            let big : need ≤ c.size = ground (arith, k.1) in
            let free : c.free ≡ true = ground (arith, k.2) in
            let at : add32 a 12 ≡ a + 12 = omega (arith, Chain-bound h a a (c ∷ cs) k') in
            served a (take_block a need h) (split_cells need c cs)
              (split_cells-Served h a need c cs big free)
              (take_block-Written h a need c cs big pos k')
              (ap (λ n. some (n, take_block a need h)) at))
        | inr bad ↦ rw bad (pass h a need c cs k' _ (λ free. ground (arith, k.1, k.2)) rest)
      ])

-- The request that `kmalloc` really serves: at least 8 bytes, and never fewer than were asked for,
-- unless the rounding wraps.
pub round_size_lem :
    (n : ℕ) → n ≤ 2 ^ 32 - 8 → (n ≤ round_size n) × (8 ≤ round_size n) × (round_size n % 8 ≡ 0)
unfolding round_size
round_size_lem n lt = ground arith

pub walk-length : (h : Heap) (cs : List Cell) → Holds h cs → length cs < walk_fuel
unfolding walk_fuel
walk-length h cs v = omega (arith, Chain-bound h h.heap_head heap_start cs v.chain)

-- What `kmalloc` does to a heap that holds the blocks `cs`, for a request of `size` bytes.
pub data Request (h : Heap) (size : ℕ) (cs : List Cell) : Type 0 where
  no_room :
      ((x : ℕ) (c : Cell) → BlockAt heap_start cs x c → c.free ≡ true → c.size < round_size size)
      → kmalloc size h ≡ some (0, h)
      → Request h size cs
  granted :
      (x : ℕ) (h' : Heap) (cs' : List Cell)
      → kmalloc size h ≡ some (x + 12, h')
      → Served (round_size size) heap_start cs x cs'
      → Holds h' cs'
      → Request h size cs

-- The walk of `kmalloc` always ends. Either no free block is large enough, and it returns `NULL`
-- and changes nothing; or it returns the payload of a block that was free, and the new heap again
-- tiles the arena, holds that block in use with at least the rounded size, and has exactly the
-- other used blocks that were there, each where it was.
pub kmalloc_lem : (h : Heap) (cs : List Cell) (size : ℕ) → Holds h cs → Request h size cs
kmalloc_lem h cs size v = go (
    first_fit-Outcome walk_fuel (round_size size) h.heap_head heap_start cs h (omega arith) v.chain
      (walk-length h cs v))
  where
    go :
        Outcome h
          (round_size size)
          h.heap_head
          heap_start
          cs
          (first_fit walk_fuel (round_size size) h.heap_head h)
        → Request h size cs
    go (refused all e) = no_room all (unfold kmalloc in e)
    go (served x h' cs' s w e) =
        granted x h' cs' (unfold kmalloc in e) s (record { chain = rw w.head w.chain })

abbrev address : Option (ℕ × Heap) → ℕ
address none = 0
address (some (ptr, h)) = ptr

apart :
    (cs cs' : List Cell) (x : ℕ) {need : ℕ} (s : Served need heap_start cs x cs') (y t : ℕ)
    {ptr size : ℕ}
    → BlockAt heap_start cs y (used t)
    → ptr ≡ x + 12
    → size ≤ s.size
    → (after y (used t) ≤ ptr) ⊎ (ptr + size ≤ y)
apart cs cs' x s y t {ptr} {size} b at le = elim (Bool-cases (y == x)) [
  | inl same ↦
      let e : x ≡ y = ground arith in
      let b' : BlockAt heap_start cs x (used t) = rw e b in
      absurd (
        false≢true (
          ap (λ (c : Cell). c.free) (block_unique heap_start cs x (used t) s.source b' s.was)
          ∙ s.was_free))
  | inr away ↦ elim (Bool-cases (ltb y x)) [
    | inl left ↦ inl (
        omega (
          arith,
          blocks_disjoint heap_start cs' y x (used t) (used s.size) (s.kept y t b) s.placed
              (ground arith),
          at,
        ))
    | inr right ↦ inr (
        omega (
          arith,
          blocks_disjoint heap_start cs' x y (used s.size) (used t) s.placed (s.kept y t b)
              (ground arith),
          at,
          le,
        ))
  ]
]

-- An address that `kmalloc` returns begins a payload inside the arena that holds the bytes asked
-- for and overlaps no block in use, as long as the request does not wrap when it is rounded.
pub kmalloc-payload :
    (h : Heap) (cs : List Cell) (size ptr : ℕ) (h' : Heap)
    → Holds h cs
    → size ≤ 2 ^ 32 - 8
    → kmalloc size h ≡ some (ptr, h')
    → ptr ≢ 0
    → (heap_start + header_size ≤ ptr)
      × (ptr + size ≤ heap_end)
      × ((y s : ℕ) → BlockAt heap_start cs y (used s) → (after y (used s) ≤ ptr) ⊎ (ptr + size ≤ y))
kmalloc-payload h cs size ptr h' v lt e ne = go (kmalloc_lem h cs size v)
  where
    same : {r r' : ℕ × Heap} → kmalloc size h ≡ some r → kmalloc size h ≡ some r' → r.0 ≡ r'.0
    same p q = ap address (sym p ∙ q)

    go :
        Request h size cs
        → (heap_start + header_size ≤ ptr)
          × (ptr + size ≤ heap_end)
          × ((y s : ℕ)
              → BlockAt heap_start cs y (used s)
              → (after y (used s) ≤ ptr) ⊎ (ptr + size ≤ y))
    go (no_room all n) = absurd (ne (same e n))
    go (granted x g cs' q s w) =
        let at : ptr ≡ x + 12 = same e q in
        let round = round_size_lem size lt in
        let big = s.big in
        (
          omega (arith, block_below heap_start cs' x (used s.size) s.placed),
          omega (arith, block_end g g.heap_head heap_start cs' x (used s.size) w.chain s.placed),
          λ y t b. apart cs cs' x s y t b at (omega (arith, big, round)),
        )
