-- ===== src/Fat/Payload.antt =====
-- `fat_write` of kernel/fat.c from the choice of the clusters on: the clusters, the payload in them,
-- and the directory entry at the end.
use nova_kernel.Prelude.{
  ℕ, ◌+◌, ◌-◌, ◌*◌, ◌/◌, ◌^◌, ◌<◌, ◌≤◌, ◌≡◌, refl, sym, ap, ap₂, ◌∙◌, Bool, true, false, ◌||◌,
  arith, inl, inr, ◌⊎◌, List, [], ◌∷◌, subst, length, Option, some,
}
use native.Mathlib.Nat.{div-add-mod', mod-lt}
use nova_kernel.Prelude.Words.{add32, sub32, mul32}
use nova_kernel.Fat.Disk.{Volume}
use nova_kernel.Fat.Table.{fat_next_cluster}
use nova_kernel.Fat.Entry.{InTable}
use nova_kernel.Fat.Chain.{elem, distinct, IsChain}
use nova_kernel.Fat.Dir.{Slot}
use nova_kernel.Fat.File.{Chaining, link_clusters, stream, write_at, write_entry, clusters_for}
use nova_kernel.Fat.Grow.{Grown, Avoids, origin}
use nova_kernel.Fat.Onto.{onto, elem-onto, length-onto, distinct-onto}
use nova_kernel.Fat.Link.{Sane, Linked, Full, link_clusters-Linked}
use nova_kernel.Fat.Read.{file_byte}
use nova_kernel.Fat.Frame.{IsChain-same}
use nova_kernel.Fat.Stream.{Done, stream-Done}

-- A whole number of clusters holds the payload.
clusters_for-room :
    (len : ℕ) (v : Volume)
    → 1 ≤ v.spc
    → v.spc < 256
    → len < 2 ^ 31
    → len ≤ clusters_for len v * (v.spc * 512)
clusters_for-room len v pos small short =
    let pc = v.spc * 512 in
    let h1 : sub32 (add32 len (mul32 v.spc 512)) 1 ≡ len + pc - 1 = omega arith in
    let h2 : mul32 v.spc 512 ≡ pc = omega arith in
    let e : clusters_for len v ≡ (len + pc - 1) / pc = ap₂ (λ a b. a / b) h1 h2 in
    let d = div-add-mod' (len + pc - 1) pc in
    let some_pc : 0 < pc = omega arith in
    let m = mod-lt (len + pc - 1) some_pc in rw (e) (omega (arith, d, m, pos))

first-IsChain :
    (v : Volume) (rs : List ℕ) (s : Chaining)
    → Grown v rs s
    → IsChain s.volume (origin 0xFFF rs) (onto rs [])
    → IsChain s.volume s.first (onto rs [])
first-IsChain v [] s g h = inl (let e = g.first in omega (arith, e))
first-IsChain v (x ∷ xs) s g h = subst (λ c. IsChain s.volume c (onto (x ∷ xs) [])) (sym g.first) h

-- The payload in `n` clusters of a chain that were free, and the directory entry at the end.
pub record Placed (norm : List ℕ) (bytes : ℕ → ℕ) (len n : ℕ) (slot : Slot) (v : Volume)
    (r : Option (Bool × Volume)) : Type 0 where
  pub first : ℕ
  pub volume : Volume
  pub clusters : List ℕ
  pub result : r ≡ some (write_entry norm first len slot volume)
  pub contents : (i : ℕ) → i < len → file_byte n first i volume ≡ bytes i
  pub counted : length clusters ≡ n
  pub apart : distinct clusters ≡ true
  pub chained : IsChain volume first clusters
  pub free : (d : ℕ) → elem d clusters ≡ true → fat_next_cluster d v ≡ 0
  pub entries :
      (d : ℕ)
      → InTable v d
      → elem d clusters ≡ false
      → fat_next_cluster d volume ≡ fat_next_cluster d v
  pub outside :
      (k : ℕ)
      → v.fat_lba + 2 * v.fat_sectors ≤ k
      → Avoids v k clusters
      → volume.sector k ≡ v.sector k

or_false : (a : Bool) → a || false ≡ a
or_false true = refl
or_false false = refl

to_front : (d : ℕ) (rs : List ℕ) → elem d rs ≡ elem d (onto rs [])
to_front d rs = sym (elem-onto d rs [] ∙ or_false (elem d rs))

module _ (norm : List ℕ) (bytes : ℕ → ℕ) (len n : ℕ) (slot : Slot) (v : Volume) (s : Chaining) where
  Linked-Placed :
      (r : Option (Bool × Volume)) (l : Linked v n s)
      → Done bytes len
          (onto l.clusters [])
          s.first
          0
          s.volume
          (stream bytes len (len + 1) s.first 0 s.volume)
      → ((v' : Volume)
          → stream bytes len (len + 1) s.first 0 s.volume ≡ some (true, v')
          → r ≡ some (write_entry norm s.first len slot v'))
      → Placed norm bytes len n slot v r
  Linked-Placed r l done write =
      let g = l.grown in
      let k = done.kept in
      let cs = onto l.clusters [] in
      let size : length cs ≡ n = omega (arith, length-onto l.clusters [], l.counted) in
      record {
        first = s.first;
        volume = done.volume;
        clusters = cs;
        result = write done.volume done.result;
        contents = λ i h.
            let e : 0 + i ≡ i = omega arith in
            ap (λ m. file_byte m s.first i done.volume) (sym size)
            ∙ k.stored i (omega (arith, h))
            ∙ ap bytes e;
        counted = size;
        apart = distinct-onto l.clusters [] g.apart refl (λ d e. refl);
        chained =
            IsChain-same s.volume done.volume s.first cs k.fat_sectors k.entries
              (first-IsChain v l.clusters s g l.chained);
        free = λ d e. g.free d (to_front d l.clusters ∙ e);
        entries = λ d t e.
            k.entries d (rw (g.fat_sectors) t)
            ∙ g.entries d t
            ∙ (rw (to_front d l.clusters, e) refl);
        outside = λ j h av.
            k.outside j (λ d e. rw (g.data_lba, g.spc) (av d e))
            ∙ g.outside j h (λ d e. av d (sym (to_front d l.clusters) ∙ e));
      }

-- `write_at` is the part of `fat_write` from the choice of the clusters on; the chain of a file that is
-- replaced has been given back before it. On a drive without errors whose data area lies behind both
-- copies of the FAT and on the disk, whose clusters have their entries inside the table and have 1 to
-- 255 sectors, a payload of fewer than 2 ^ 31 bytes that takes fewer than 65536 clusters has one of
-- two outcomes. Either `write_at` takes the clusters it needs, all of which were free, puts byte `i`
-- of the payload at byte `i` of their chain, changes no other entry and no other sector behind the FAT
-- before the directory entry, and its result is that of writing this entry with the first of them; or
-- fewer are free, and it returns 0 with every entry as it found it.
pub write_at-Placed :
    (norm : List ℕ) (bytes : ℕ → ℕ) (len : ℕ) (slot : Slot) (v : Volume)
    → Sane v
    → 1 ≤ v.spc
    → v.spc < 256
    → len < 2 ^ 31
    → clusters_for len v < 65536
    → (let n = clusters_for len v in
        let r = write_at norm bytes len slot v in
        let s = (link_clusters n (record { first = 0; prev = 0; volume = v })).1 in
        Placed norm bytes len n slot v r ⊎ ((r ≡ some (false, s.volume)) × Full v n s))
unfolding write_at
write_at-Placed norm bytes len slot v sane pos small short few =
    let n = clusters_for len v in
    let linked = link_clusters n (record { first = 0; prev = 0; volume = v }) in
    let s = linked.1 in
    let behind = sane.behind in
    elim (link_clusters-Linked n v sane few) [
      | inr (fails, f) ↦ inr ((rw (fails) refl), f)
      | inl (took, l) ↦
          let g = l.grown in
          let size = length-onto l.clusters [] in
          let count = l.counted in
          let room = clusters_for-room len v pos small short in
          let size' : length (onto l.clusters []) ≡ n = omega (arith, size, count) in
          let done =
            stream-Done bytes len (onto l.clusters []) (len + 1) s.first 0 s.volume g.good
              (rw (g.fat_lba, g.fat_sectors, g.data_lba) behind) (rw (g.spc) pos)
              (distinct-onto l.clusters [] g.apart refl (λ d e. refl))
              (first-IsChain v l.clusters s g l.chained) (rw (size', g.spc) (omega (arith, room)))
              (omega arith) (omega arith) in
          inl (Linked-Placed norm bytes len n slot v s _ l done (λ v' e. (rw (took, e) refl)))
    ]
