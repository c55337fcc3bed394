-- ===== src/Kheap/Used.antt =====
-- The blocks in use of kernel/kheap.c: what `kfree` leaves of them, and what `kheap_used` counts.
use nova_kernel.Prelude.{
  ℕ, zero, suc, ◌+◌, ◌^◌, ◌<◌, ◌≤◌, ◌≡◌, sym, ap, ◌∙◌, ◌≢◌, true, false, arith, inl, inr, List, [],
  ◌∷◌, if◌then◌else◌, length, some, ◌==◌, Bool-cases, subst, ◌↔◌,
}
use mathlib.Core.Bool.{false≢true}
use nova_kernel.Prelude.Words.{add32}
use nova_kernel.Kheap.{Heap, heap_end, heap_start, used_from, kheap_used, walk_fuel}
use nova_kernel.Kheap.Chain.{Cell, after, Chain, Holds, BlockAt, block_below}
use nova_kernel.Kheap.Take.{used}
use nova_kernel.Kheap.Malloc.{walk-length}
use nova_kernel.Kheap.Free.{absorb, release, release_here, release_later, absorb_free, absorb_busy}

not_free : (s n : ℕ) → ¬ (used s ≡ record { size = n; free = true })
not_free s n e = false≢true (ap (λ (d : Cell). d.free) e)

used-absorb :
    (a n : ℕ) (cs : List Cell) (y s : ℕ)
    → BlockAt a (absorb n cs) y (used s) ↔ BlockAt (a + 12 + n) cs y (used s)
unfolding absorb
used-absorb a n [] y s =
    (λ b. elim b [ inl m ↦ absurd (not_free s n m.1) | inr m ↦ m ], λ b. absurd b)
used-absorb a n (d ∷ cs) y s = elim (Bool-cases d.free) [
  | inl free ↦
      let ih = used-absorb a (n + 12 + d.size) cs y s in
      let e : a + 12 + (n + 12 + d.size) ≡ after (a + 12 + n) d = omega arith in
      let skip : used s ≡ d → ⊥ = λ m. false≢true (ap (λ (c : Cell). c.free) m ∙ free) in
      subst (λ l. BlockAt a l y (used s) ↔ BlockAt (a + 12 + n) (d ∷ cs) y (used s))
        (sym (absorb_free n d cs free))
        (
          λ b. inr (subst (λ t. BlockAt t cs y (used s)) e (ih.0 b)),
          λ b. elim b [
            | inl m ↦ absurd (skip m.1)
            | inr m ↦ ih.1 (subst (λ t. BlockAt t cs y (used s)) (sym e) m)
          ],
        )
  | inr busy ↦
      subst (λ l. BlockAt a l y (used s) ↔ BlockAt (a + 12 + n) (d ∷ cs) y (used s))
        (sym (absorb_busy n d cs busy))
        (λ b. elim b [ inl m ↦ absurd (not_free s n m.1) | inr m ↦ m ], λ b. inr b)
]

-- Releasing the block at `x` leaves exactly the other used blocks in use.
pub used-release :
    (a : ℕ) (cs : List Cell) (x : ℕ) (c : Cell) (y s : ℕ)
    → BlockAt a cs x c
    → BlockAt a (release x a cs) y (used s) ↔ (BlockAt a cs y (used s) × (y ≢ x))
used-release a [] x c y s b = absurd b
used-release a (d ∷ cs) x c y s (inl (at, same)) =
    let ab = used-absorb a d.size cs y s in
    rw (at, release_here a d cs)
      (
        λ b. (inr (ab.0 b), λ e. omega (arith, block_below (after a d) cs y (used s) (ab.0 b))),
        λ (b, n). elim b [ inl m ↦ absurd (n m.0) | inr m ↦ ab.1 m ],
      )
used-release a (d ∷ cs) x c y s (inr b) =
    let far : a < x = omega (arith, block_below (after a d) cs x c b) in
    let ih = used-release (after a d) cs x c y s b in
    rw (release_later x a d cs far) (
      λ m. elim m [
        | inl e ↦ (inl e, λ q. omega (arith, e.0))
        | inr t ↦ (inr (ih.0 t).0, (ih.0 t).1)
      ],
      λ (m, n). elim m [ inl e ↦ inl e | inr t ↦ inr (ih.1 (t, n)) ],
    )

-- the payload bytes of the blocks in use
unfoldable pub used_bytes : List Cell → ℕ
used_bytes [] = 0
used_bytes (c ∷ cs) = (if c.free then 0 else c.size) + used_bytes cs

used_bytes_bound :
    (h : Heap) (p a : ℕ) (cs : List Cell) → Chain h p a cs → a + used_bytes cs ≤ heap_end
unfolding used_bytes
used_bytes_bound h p a [] (e, t) = omega arith
used_bytes_bound h p a (c ∷ cs) (e, s, f, k) =
    ground (arith, used_bytes_bound h (h.header a).next (after a c) cs k)

used_from_lem :
    (fuel p a acc : ℕ) (cs : List Cell) (h : Heap)
    → 0 < a
    → Chain h p a cs
    → length cs < fuel
    → acc + used_bytes cs < 2 ^ 32
    → used_from fuel p acc h ≡ some (acc + used_bytes cs)
unfolding used_from used_bytes
used_from_lem zero p a acc cs h pos k lt small = absurd (omega arith)
used_from_lem (suc fuel) p a acc [] h pos (e, t) lt small = rw e (ap some (omega arith))
used_from_lem (suc fuel) p a acc (c ∷ cs) h pos (e, s, f, k) lt small =
    let ne : (a == 0) ≡ false = ground arith in
    let acc' = if (h.header a).free == 0 then add32 acc (h.header a).size else acc in
    let step : acc' + used_bytes cs ≡ acc + used_bytes (c ∷ cs) = ground (arith, s, f) in
    rw (e, ne)
      (used_from_lem fuel (h.header a).next (after a c) acc' cs h (omega arith) k (omega arith)
          (rw step small)
        ∙ ap some step)

-- `kheap_used` ends, and counts the payload bytes of the blocks in use.
pub kheap_used_lem : (h : Heap) (cs : List Cell) → Holds h cs → kheap_used h ≡ some (used_bytes cs)
unfolding kheap_used
kheap_used_lem h cs v =
    used_from_lem walk_fuel h.heap_head heap_start 0 cs h (omega arith) v.chain (walk-length h cs v)
      (omega (arith, used_bytes_bound h h.heap_head heap_start cs v.chain))
    ∙ ap some (omega arith)
