-- ===== src/Kheap/Free.antt =====
-- `kfree` and `kheap_used` of kernel/kheap.c.
use nova_kernel.Prelude.{
  ℕ, zero, suc, ◌+◌, ◌<◌, ◌≡◌, refl, sym, ◌∙◌, ◌≢◌, true, false, arith, ◌⊎◌, inl, inr, List, [],
  ◌∷◌, if◌then◌else◌, length, some, ◌==◌, Bool-cases, subst,
}
use nova_kernel.Prelude.Words.{sub32, add32}
use nova_kernel.Kheap.{
  Heap, Block, heap_start, header_size, write_header, coalesce, kfree, walk_fuel,
}
use nova_kernel.Kheap.Chain.{
  Cell, after, Chain, Holds, BlockAt, Chain-bound, Chain-cons, Chain-congr, block_below, block_end,
}
use nova_kernel.Kheap.Malloc.{walk-length}

-- the free block of `s` bytes, after it has taken in the free blocks that follow
unfoldable pub absorb : ℕ → List Cell → List Cell
absorb s [] = record { size = s; free = true } ∷ []
absorb s (d ∷ cs) =
    if d.free then absorb (s + 12 + d.size) cs else record { size = s; free = true } ∷ d ∷ cs

-- the blocks after the one at the address `x` is released
unfoldable pub release : ℕ → ℕ → List Cell → List Cell
unfolding absorb
release x a [] = []
release x a (c ∷ cs) = if a == x then absorb c.size cs else c ∷ release x (after a c) cs

record Merged (h : Heap) (b s : ℕ) (cs : List Cell) (h' : Heap) : Type 0 where
  chain : Chain h' b b (absorb s cs)
  head : h'.heap_head ≡ h.heap_head
  elsewhere : (y : ℕ) → y ≢ b → h'.header y ≡ h.header y

-- what one round of the loop of `kfree` writes
merge_next : ℕ → Heap → Heap
merge_next b h = write_header h b (record (h.header b) {
  size = add32 (h.header b).size (add32 header_size (h.header (h.header b).next).size);
  next = (h.header (h.header b).next).next;
})

coalesce_stop :
    (fuel b : ℕ) (h : Heap)
    → ((h.header b).next ≡ 0) ⊎ ((h.header (h.header b).next).free ≡ 0)
    → coalesce (suc fuel) b h ≡ some h
unfolding coalesce
coalesce_stop fuel b h (inl e) = rw e
coalesce_stop fuel b h (inr e) = elim (Bool-cases ((h.header b).next == 0)) [
  | inl z ↦ rw z
  | inr n ↦ rw (n, e)
]

coalesce_go :
    (fuel b : ℕ) (h : Heap)
    → (h.header b).next ≢ 0
    → (h.header (h.header b).next).free ≡ 1
    → coalesce (suc fuel) b h ≡ coalesce fuel b (merge_next b h)
unfolding coalesce merge_next
coalesce_go fuel b h ne e = let n : ((h.header b).next == 0) ≡ false = ground arith in rw (n, e)

pub absorb_busy :
    (s : ℕ) (d : Cell) (cs : List Cell)
    → d.free ≡ false
    → absorb s (d ∷ cs) ≡ record { size = s; free = true } ∷ d ∷ cs
unfolding absorb
absorb_busy s d cs e = rw e

pub absorb_free :
    (s : ℕ) (d : Cell) (cs : List Cell)
    → d.free ≡ true
    → absorb s (d ∷ cs) ≡ absorb (s + 12 + d.size) cs
unfolding absorb
absorb_free s d cs e = rw e

merge-here :
    (h : Heap) (b : ℕ)
    → (merge_next b h).header b ≡ record {
      size = add32 (h.header b).size (add32 12 (h.header (h.header b).next).size);
      free = (h.header b).free;
      next = (h.header (h.header b).next).next;
    }
unfolding merge_next
merge-here h b = ground arith

merge-elsewhere : (h : Heap) (b y : ℕ) → y ≢ b → (merge_next b h).header y ≡ h.header y
unfolding merge_next
merge-elsewhere h b y n = ground arith

merge-head : (h : Heap) (b : ℕ) → (merge_next b h).heap_head ≡ h.heap_head
unfolding merge_next
merge-head h b = refl

merge-Chain :
    (h : Heap) (b s : ℕ) (d : Cell) (cs : List Cell)
    → Chain h b b (record { size = s; free = true } ∷ d ∷ cs)
    → Chain (merge_next b h) b b (record { size = s + 12 + d.size; free = true } ∷ cs)
merge-Chain h b s d cs (_, hs, hf, (e, ds, df, k)) =
    let room = Chain-bound h (h.header (b + 12 + s)).next (after (b + 12 + s) d) cs k in
    let top : Block = record {
      size = add32 (h.header b).size (add32 12 (h.header (h.header b).next).size);
      free = (h.header b).free;
      next = (h.header (h.header b).next).next;
    } in
    let total : top.size ≡ s + 12 + d.size = ground (arith, e, ds) in
    let link : b + 12 + (s + 12 + d.size) ≡ after (b + 12 + s) d = omega arith in
    Chain-cons (merge_next b h) b top (record { size = s + 12 + d.size; free = true }) cs
      (merge-here h b) total hf
      (rw (e, link)
        (Chain-congr h (merge_next b h) (h.header (b + 12 + s)).next (after (b + 12 + s) d) cs
          (λ y lt. merge-elsewhere h b y (omega arith)) k))

-- From a free block of `s` bytes on, the loop takes in the free blocks that follow, and ends.
coalesce_lem :
    (fuel b s : ℕ) (cs : List Cell) (h : Heap)
    → 0 < b
    → Chain h b b (record { size = s; free = true } ∷ cs)
    → length cs < fuel
    → (h' : Heap) × (coalesce fuel b h ≡ some h') × Merged h b s cs h'
coalesce_lem zero b s cs h pos k lt = absurd (omega arith)
coalesce_lem (suc fuel) b s [] h pos (_, hs, hf, (e, t)) lt = (
  h,
  coalesce_stop fuel b h (inl e),
  record { chain = unfold absorb in (refl, hs, hf, (e, t)); head = refl; elsewhere = λ y n. refl },
)
coalesce_lem (suc fuel) b s (d ∷ cs) h pos (_, hs, hf, (e, ds, df, k)) lt =
    elim (Bool-cases d.free) [
      | inl free ↦
          let ne : (h.header b).next ≢ 0 = ground arith in
          let nf : (h.header (h.header b).next).free ≡ 1 = ground (arith, e, df) in
          let k' : Chain h b b (record { size = s; free = true } ∷ d ∷ cs) =
            (refl, hs, hf, (e, ds, df, k)) in
          let (h', run, m) =
            coalesce_lem fuel b (s + 12 + d.size) cs (merge_next b h) pos
              (merge-Chain h b s d cs k') (omega arith) in
          (
            h',
            coalesce_go fuel b h ne nf ∙ run,
            record {
              chain = rw (absorb_free s d cs free) m.chain;
              head = m.head ∙ merge-head h b;
              elsewhere = λ y n. m.elsewhere y n ∙ merge-elsewhere h b y n;
            },
          )
      | inr busy ↦ (
        h,
        coalesce_stop fuel b h (inr (ground (arith, e, df))),
        record {
          chain = rw (absorb_busy s d cs busy) (refl, hs, hf, (e, ds, df, k));
          head = refl;
          elsewhere = λ y n. refl;
        },
      )
    ]

mark_free : ℕ → Heap → Heap
mark_free b h = write_header h b (record (h.header b) { free = 1 })

record Released (h : Heap) (p a x : ℕ) (cs : List Cell) (h' : Heap) : Type 0 where
  chain : Chain h' p a (release x a cs)
  head : h'.heap_head ≡ h.heap_head
  elsewhere : (y : ℕ) → y ≢ x → h'.header y ≡ h.header y

pub release_here : (a : ℕ) (c : Cell) (cs : List Cell) → release a a (c ∷ cs) ≡ absorb c.size cs
unfolding release
release_here a c cs = ground arith

pub release_later :
    (x a : ℕ) (c : Cell) (cs : List Cell)
    → a < x
    → release x a (c ∷ cs) ≡ c ∷ release x (after a c) cs
unfolding release
release_later x a c cs lt = ground arith

mark_free-Chain :
    (h : Heap) (a : ℕ) (c : Cell) (cs : List Cell)
    → Chain h a a (c ∷ cs)
    → Chain (mark_free a h) a a (record { size = c.size; free = true } ∷ cs)
unfolding mark_free
mark_free-Chain h a c cs (_, s, f, k) =
    Chain-cons (mark_free a h) a (record (h.header a) { free = 1 })
      (record { size = c.size; free = true }) cs (ground arith) s refl
      (Chain-congr h (mark_free a h) (h.header a).next (after a c) cs (λ y lt. ground arith) k)

release-Chain :
    (fuel : ℕ) (h : Heap) (p a x : ℕ) (c : Cell) (cs : List Cell)
    → 0 < a
    → Chain h p a cs
    → BlockAt a cs x c
    → length cs < fuel
    → (h' : Heap) × (coalesce fuel x (mark_free x h) ≡ some h') × Released h p a x cs h'
release-Chain fuel h p a x c [] pos k b lt = absurd b
release-Chain fuel h p a x c (d ∷ cs) pos (e, s, f, k) (inl (at, same)) lt =
    let (h', run, m) =
      coalesce_lem fuel a d.size cs (mark_free a h) pos (mark_free-Chain h a d cs (refl, s, f, k))
        (omega arith) in
    rw (at, e)
      (
        h',
        run,
        record {
          chain = rw (release_here a d cs) m.chain;
          head = m.head ∙ unfold mark_free in refl;
          elsewhere = λ y n. m.elsewhere y n ∙ unfold mark_free in ground arith;
        },
      )
release-Chain fuel h p a x c (d ∷ cs) pos (e, s, f, k) (inr b) lt =
    let (h', run, m) =
      release-Chain fuel h (h.header a).next (after a d) x c cs (omega arith) k b (omega arith) in
    let far : a < x = omega (arith, block_below (after a d) cs x c b) in
    (
      h',
      run,
      record {
        chain =
            subst (λ q. Chain h' q a (release x a (d ∷ cs))) (sym e)
              (subst (Chain h' a a) (sym (release_later x a d cs far)) (
                Chain-cons h' a (h.header a) d (release x (after a d) cs)
                  (m.elsewhere a (omega arith)) s f m.chain));
        head = m.head;
        elsewhere = m.elsewhere;
      },
    )

add_ne_zero : (x : ℕ) → (x + 12 == 0) ≡ false
add_ne_zero x = ground arith

-- `kfree` of the payload of a block that the heap holds ends, and releases that block: it becomes
-- free and takes in the free blocks that follow it; the blocks still tile the arena.
pub kfree_lem :
    (h : Heap) (cs : List Cell) (x : ℕ) (c : Cell)
    → Holds h cs
    → BlockAt heap_start cs x c
    → (h' : Heap) × (kfree (x + 12) h ≡ some h') × Holds h' (release x heap_start cs)
unfolding kfree
kfree_lem h cs x c v b =
    let (h', run, m) =
      release-Chain walk_fuel h h.heap_head heap_start x c cs (omega arith) v.chain b
        (walk-length h cs v) in
    let at : sub32 (x + 12) 12 ≡ x =
      omega (arith, block_end h h.heap_head heap_start cs x c v.chain b) in
    (h', rw (add_ne_zero x, at) (unfold mark_free in run), record { chain = rw m.head m.chain })

-- `kfree(NULL)` does nothing.
kfree_null : (h : Heap) → kfree 0 h ≡ some h
unfolding kfree
kfree_null h = refl
