-- ===== src/Kheap/Chain.antt =====
-- The linked list of kernel/kheap.c as a list of blocks that tile the arena.
use nova_kernel.Prelude.{
  sym, ◌∙◌, ℕ, ◌+◌, ◌*◌, ◌<◌, ◌≤◌, ◌≡◌, refl, Bool, true, arith, ◌⊎◌, inl, inr, List, [], ◌∷◌,
  if◌then◌else◌, length,
}
use nova_kernel.Kheap.{Block, Heap, heap_end, heap_start, header_size, kheap_init}

-- a block of the abstract heap: its payload bytes, and whether it is free
pub record Cell : Type 0 where
  pub size : ℕ
  pub free : Bool

abbrev pub flag : Bool → ℕ
flag b = if b then 1 else 0

-- the address behind a block
abbrev pub after : ℕ → Cell → ℕ
after a c = a + header_size + c.size

-- From the pointer `p` the headers lead through the blocks `cs`, which fill the arena from the
-- address `a` to its end without a gap.
abbrev pub Chain : Heap → ℕ → ℕ → List Cell → Type 0
Chain h p a [] = (p ≡ 0) × (a ≡ heap_end)
Chain h p a (c ∷ cs) =
    (p ≡ a)
    × ((h.header a).size ≡ c.size)
    × ((h.header a).free ≡ flag c.free)
    × Chain h (h.header a).next (after a c) cs

-- the heap holds exactly the blocks `cs`
pub record Holds (h : Heap) (cs : List Cell) : Type 0 where
  pub chain : Chain h h.heap_head heap_start cs

-- the block `c` of the list `cs`, which begins at the address `a`, stands at the address `x`
abbrev pub BlockAt : ℕ → List Cell → ℕ → Cell → Type 0
BlockAt a [] x c = ⊥
BlockAt a (d ∷ cs) x c = ((x ≡ a) × (c ≡ d)) ⊎ BlockAt (after a d) cs x c

-- A chain ends inside the arena, and has room for its headers.
pub Chain-bound :
    (h : Heap) (p a : ℕ) (cs : List Cell) → Chain h p a cs → a + header_size * length cs ≤ heap_end
Chain-bound h p a [] k = omega arith
Chain-bound h p a (c ∷ cs) (e, s, f, k) =
    omega (arith, Chain-bound h (h.header a).next (after a c) cs k)

pub Chain-null : (h : Heap) (p a : ℕ) (cs : List Cell) → Chain h p a cs → p ≡ 0 → 0 < a → cs ≡ []
Chain-null h p a [] k e pos = refl
Chain-null h p a (c ∷ cs) k e pos = absurd (omega arith)

-- A chain rests on the headers from its address on.
pub Chain-congr :
    (h h' : Heap) (p a : ℕ) (cs : List Cell)
    → ((y : ℕ) → a ≤ y → h'.header y ≡ h.header y)
    → Chain h p a cs
    → Chain h' p a cs
Chain-congr h h' p a [] same c = c
Chain-congr h h' p a (d ∷ cs) same (e, s, f, c) =
    let tail = Chain-congr h h' (h.header a).next (after a d) cs (λ y b. same y (omega arith)) c in
    rw (same a (omega arith)) (e, s, f, tail)

-- A chain that begins with the header `k`.
pub Chain-cons :
    (h : Heap) (a : ℕ) (k : Block) (c : Cell) (cs : List Cell)
    → h.header a ≡ k
    → k.size ≡ c.size
    → k.free ≡ flag c.free
    → Chain h k.next (after a c) cs
    → Chain h a a (c ∷ cs)
Chain-cons h a k c cs e s f t = rw e (refl, s, f, t)

-- Blocks at different addresses do not overlap.
pub block_below : (a : ℕ) (cs : List Cell) (x : ℕ) (c : Cell) → BlockAt a cs x c → a ≤ x
block_below a [] x c h = absurd h
block_below a (d ∷ cs) x c (inl e) = omega arith
block_below a (d ∷ cs) x c (inr h) = omega (arith, block_below (after a d) cs x c h)

pub blocks_disjoint :
    (a : ℕ) (cs : List Cell) (x y : ℕ) (c d : Cell)
    → BlockAt a cs x c
    → BlockAt a cs y d
    → x < y
    → after x c ≤ y
blocks_disjoint a [] x y c d h k lt = absurd h
blocks_disjoint a (e ∷ cs) x y c d (inl (p, q)) (inl k) lt = absurd (omega arith)
blocks_disjoint a (e ∷ cs) x y c d (inl (p, q)) (inr k) lt =
    rw (p, q) (block_below (after a e) cs y d k)
blocks_disjoint a (e ∷ cs) x y c d (inr h) (inl k) lt =
    absurd (omega (arith, block_below (after a e) cs x c h))
blocks_disjoint a (e ∷ cs) x y c d (inr h) (inr k) lt =
    blocks_disjoint (after a e) cs x y c d h k lt

-- One block stands at an address.
pub block_unique :
    (a : ℕ) (cs : List Cell) (x : ℕ) (c d : Cell) → BlockAt a cs x c → BlockAt a cs x d → c ≡ d
block_unique a [] x c d h k = absurd h
block_unique a (e ∷ cs) x c d (inl (p, q)) (inl (p', q')) = q ∙ sym q'
block_unique a (e ∷ cs) x c d (inl (p, q)) (inr k) =
    absurd (omega (arith, block_below (after a e) cs x d k))
block_unique a (e ∷ cs) x c d (inr h) (inl (p, q)) =
    absurd (omega (arith, block_below (after a e) cs x c h))
block_unique a (e ∷ cs) x c d (inr h) (inr k) = block_unique (after a e) cs x c d h k

-- Every block lies inside the arena.
pub block_end :
    (h : Heap) (p a : ℕ) (cs : List Cell) (x : ℕ) (c : Cell)
    → Chain h p a cs
    → BlockAt a cs x c
    → after x c ≤ heap_end
block_end h p a [] x c k b = absurd b
block_end h p a (d ∷ cs) x c (e, s, f, k) (inl (i, j)) =
    rw (i, j) (omega (arith, Chain-bound h (h.header a).next (after a d) cs k))
block_end h p a (d ∷ cs) x c (e, s, f, k) (inr b) =
    block_end h (h.header a).next (after a d) cs x c k b

-- `kheap_init` leaves one free block that fills the arena, whatever stood in memory before.
pub kheap_init-Holds :
    (h : Heap) → Holds (kheap_init h) (record { size = 0xFFFF4; free = true } ∷ [])
unfolding kheap_init
kheap_init-Holds h = record { chain = (refl, refl, refl, (refl, refl)) }
