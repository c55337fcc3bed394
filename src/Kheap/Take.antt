-- ===== src/Kheap/Take.antt =====
-- Taking a free block of kernel/kheap.c: the split, and what becomes of the other blocks.
use nova_kernel.Prelude.{
  ℕ, ◌+◌, ◌-◌, ◌<◌, ◌≤◌, ◌≡◌, refl, sym, ap, ◌∙◌, true, false, arith, ◌⊎◌, inl, inr, List, ◌∷◌,
  if◌then◌else◌, leb, ◌==◌, Bool-cases, subst,
}
use mathlib.Core.Bool.{false≢true}
use nova_kernel.Prelude.Words.{sub32, add32}
use nova_kernel.Kheap.{Heap, Block, heap_end, write_header, heap_split}
use nova_kernel.Kheap.Chain.{Cell, after, Chain, BlockAt, Chain-bound, Chain-congr, Chain-cons}

abbrev pub used : ℕ → Cell
used s = record { size = s; free = false }

-- The abstract result of a request for `need` bytes that is served at the address `x`: the blocks
-- `cs` have become `cs'`.
pub record Served (need a : ℕ) (cs : List Cell) (x : ℕ) (cs' : List Cell) : Type 0 where
  pub size : ℕ
  pub big : need ≤ size
  pub placed : BlockAt a cs' x (used size)
  pub source : Cell
  pub was : BlockAt a cs x source
  pub was_free : source.free ≡ true
  pub kept : (y s : ℕ) → BlockAt a cs y (used s) → BlockAt a cs' y (used s)
  pub only : (y s : ℕ) → BlockAt a cs' y (used s) → (y ≡ x) ⊎ BlockAt a cs y (used s)

-- the headers that go with it
pub record Written (h : Heap) (p a : ℕ) (h' : Heap) (cs' : List Cell) : Type 0 where
  pub chain : Chain h' p a cs'
  pub head : h'.heap_head ≡ h.heap_head
  pub below : (y : ℕ) → y < a → h'.header y ≡ h.header y

-- the block that `kmalloc` makes of the free block at `a`, with its mark
unfoldable pub take_block : ℕ → ℕ → Heap → Heap
take_block a need h =
    let h' = heap_split a need h in write_header h' a (record (h'.header a) { free = 0 })

unfoldable pub split_cells : ℕ → Cell → List Cell → List Cell
split_cells need c cs =
    if leb (c.size - need) 20
    then used c.size ∷ cs
    else used need ∷ record { size = c.size - need - 12; free = true } ∷ cs

module _ (h : Heap) (a need : ℕ) (c : Cell) (cs : List Cell) (fits : need ≤ c.size)
    (free : c.free ≡ true) where
  not_free : {s : ℕ} → used s ≡ c → ⊥
  not_free e = false≢true (ap (λ (d : Cell). d.free) e ∙ free)

  joined : leb (c.size - need) 20 ≡ false → after a c ≡ a + 12 + need + 12 + (c.size - need - 12)
  joined cut = ground arith

  pub split_cells-Served : Served need a (c ∷ cs) a (split_cells need c cs)
  unfolding split_cells
  split_cells-Served = elim (Bool-cases (leb (c.size - need) 20)) [
    | inl whole ↦ rw whole (record {
      size = c.size;
      big = fits;
      placed = inl (refl, refl);
      source = c;
      was = inl (refl, refl);
      was_free = free;
      kept = λ y s b. elim b [ inl m ↦ absurd (not_free (m.1)) | inr m ↦ inr m ];
      only = λ y s b. elim b [ inl m ↦ inl m.0 | inr m ↦ inr (inr m) ];
    })
    | inr cut ↦ rw cut (record {
      size = need;
      big = omega arith;
      placed = inl (refl, refl);
      source = c;
      was = inl (refl, refl);
      was_free = free;
      kept = λ y s b. elim b [
        | inl m ↦ absurd (not_free (m.1))
        | inr m ↦ inr (inr (subst (λ t. BlockAt t cs y (used s)) (joined cut) m))
      ];
      only = λ y s b. elim b [
        | inl m ↦ inl m.0
        | inr (inl m) ↦ absurd (false≢true (ap (λ (d : Cell). d.free) m.1))
        | inr (inr m) ↦ inr (inr (subst (λ t. BlockAt t cs y (used s)) (sym (joined cut)) m))
      ];
    })
  ]

module _ (h : Heap) (a need : ℕ) (c : Cell) (cs : List Cell) (fits : need ≤ c.size) (pos : 0 < a)
    (k : Chain h a a (c ∷ cs)) where
  abbrev rest_at : ℕ
  rest_at = a + 12 + need

  rest_block : Block
  rest_block = record { size = c.size - need - 12; free = 1; next = (h.header a).next }

  in_arena : after a c ≤ heap_end
  in_arena = omega (arith, Chain-bound h (h.header a).next (after a c) cs k.3)

  -- the headers after the block is taken, where it is not split
  taken_whole :
      (y : ℕ)
      → leb (c.size - need) 20 ≡ true
      → (take_block a need h).header y
        ≡ (if a == y then record (h.header a) { free = 0 } else h.header y)
  unfolding take_block heap_split
  taken_whole y whole =
      let gap : sub32 (h.header a).size need ≡ c.size - need = omega (arith, in_arena) in
      rw (gap, whole)

  -- and where it is
  taken_split :
      (y : ℕ)
      → leb (c.size - need) 20 ≡ false
      → (take_block a need h).header y ≡ (
          if a == y
          then record { size = need; free = 0; next = rest_at }
          else if rest_at == y
          then rest_block
          else h.header y)
  unfolding take_block heap_split rest_block
  taken_split y cut =
      let b = in_arena in
      let gap : sub32 (h.header a).size need ≡ c.size - need = omega arith in
      let left : sub32 (c.size - need) 12 ≡ c.size - need - 12 = ground arith in
      let rest : add32 (add32 a 12) need ≡ a + 12 + need = omega arith in
      rw (gap, cut, left, rest) (ground arith)

  take_block-head : (take_block a need h).heap_head ≡ h.heap_head
  unfolding take_block heap_split
  take_block-head = ground arith

  abbrev free_rest : Cell
  free_rest = record { size = c.size - need - 12; free = true }

  tail :
      leb (c.size - need) 20 ≡ false
      → Chain (take_block a need h) rest_block.next (after rest_at free_rest) cs
  unfolding rest_block
  tail cut =
      let e : after rest_at free_rest ≡ after a c = ground arith in
      rw e (
        Chain-congr h (take_block a need h) (h.header a).next (after a c) cs
          (λ y lt. ground (arith, taken_split y cut)) k.3)

  pub take_block-Written : Written h a a (take_block a need h) (split_cells need c cs)
  unfolding split_cells rest_block
  take_block-Written =
      let h' = take_block a need h in
      elim (Bool-cases (leb (c.size - need) 20)) [
        | inl whole ↦ rw whole (record {
          chain =
              Chain-cons h' a (record (h.header a) { free = 0 }) (used c.size) cs
                (ground (arith, taken_whole a whole)) k.1 refl
                (Chain-congr h h' (h.header a).next (after a c) cs
                  (λ y lt. ground (arith, taken_whole y whole)) k.3);
          head = take_block-head;
          below = λ y lt. ground (arith, taken_whole y whole);
        })
        | inr cut ↦ rw cut (record {
          chain =
              Chain-cons h' a (record { size = need; free = 0; next = rest_at }) (used need)
                (free_rest ∷ cs) (ground (arith, taken_split a cut)) refl refl
                (Chain-cons h' rest_at rest_block free_rest cs
                  (ground (arith, taken_split rest_at cut)) refl refl (tail cut));
          head = take_block-head;
          below = λ y lt. ground (arith, taken_split y cut);
        })
      ]
