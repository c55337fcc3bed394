-- ===== src/Fat/Link.antt =====
-- The clusters that `fat_write` of kernel/fat.c takes for a file: all of them in a chain, or none.
use nova_kernel.Prelude.{
  ℕ, zero, suc, ◌+◌, ◌-◌, ◌*◌, ◌^◌, ◌%◌, ◌<◌, ◌≤◌, ◌≡◌, ◌≢◌, refl, sym, ap, ◌∙◌, Bool, true, false,
  ◌||◌, arith, ◌==◌, if◌then◌else◌, Bool-cases, inl, inr, ◌⊎◌, List, [], ◌∷◌, subst, length,
}
use native.Mathlib.Nat.{div-le_self}
use nova_kernel.Fat.Disk.{Volume}
use nova_kernel.Fat.Table.{fat_next_cluster, fat_alloc_cluster, data_clusters_max}
use nova_kernel.Fat.Bytes.{IsGood, IsBytes}
use nova_kernel.Fat.Entry.{InTable}
use nova_kernel.Fat.Chain.{elem, IsChain, fat_free_chain-Freed}
use nova_kernel.Fat.Take.{Taken, fat_alloc_cluster_lem}
use nova_kernel.Fat.File.{Chaining, link, link_clusters, release}
use nova_kernel.Fat.Grow.{Grown, Numbered, origin, grow_first}
use nova_kernel.Fat.Extend.{grow_more, chain_first_pos}
use nova_kernel.Fat.Onto.{onto, elem-onto, length-onto, distinct-onto, Grown-IsChain}

-- A volume whose data area lies behind both copies of the FAT and on the disk, with the entries of
-- its clusters inside the table.
pub record Sane (v : Volume) : Type 0 where
  pub good : IsGood v
  pub range : IsBytes v
  pub behind : v.fat_lba + 2 * v.fat_sectors ≤ v.data_lba
  pub on_disk : v.data_lba ≤ 2880
  pub inside : (d : ℕ) → d < 2 + data_clusters_max v → InTable v d

Grown-start : (v : Volume) → Sane v → Grown v [] (record { first = 0; prev = 0; volume = v })
Grown-start v sane = record {
  first = refl;
  prev = refl;
  entries = λ d h. refl;
  free = λ d h. absurd (ground arith);
  members = λ d h. absurd (ground arith);
  apart = refl;
  outside = λ k h av. refl;
  fat_lba = refl;
  fat_sectors = refl;
  spc = refl;
  data_lba = refl;
  good = sane.good;
  range = sane.range;
}

grow :
    (v : Volume) (rs : List ℕ) (c : ℕ) (v1 : Volume) (s : Chaining)
    → Grown v rs s
    → Numbered v c
    → Taken c s.volume v1
    → Grown v (c ∷ rs) (link c v1 s)
grow v [] c v1 s g num t = grow_first v c v1 s g num t
grow v (p ∷ xs) c v1 s g num t = grow_more v p xs c v1 s g num t

given_back :
    (v : Volume) (rs : List ℕ) (s : Chaining)
    → Grown v rs s
    → (d : ℕ) → InTable v d
    → (if elem d rs || false then 0 else fat_next_cluster d s.volume) ≡ fat_next_cluster d v
given_back v rs s g d h = elim (Bool-cases (elem d rs)) [
  | inl inn ↦ rw (inn) (sym (g.free d inn))
  | inr out ↦ rw (out) (g.entries d h ∙ (rw (out) refl))
]

-- Giving the clusters back leaves every entry as it was before they were taken.
released :
    (v : Volume) (rs : List ℕ) (s : Chaining)
    → Grown v rs s
    → length rs < 65536
    → (d : ℕ) → InTable v d
    → fat_next_cluster d (release s.first s.volume) ≡ fat_next_cluster d v
released v [] s g lt d h =
    let z : s.first == 0 ≡ true = (let e = g.first in ground arith) in rw (z) (g.entries d h)
released v (p ∷ xs) s g lt d h =
    let z = chain_first_pos v p xs s g in
    let ch =
      subst (λ c. IsChain s.volume c (onto (p ∷ xs) [])) (sym g.first)
        (Grown-IsChain v (p ∷ xs) s g) in
    let size = length-onto (p ∷ xs) [] in
    let fr =
      fat_free_chain-Freed s.first (onto (p ∷ xs) []) s.volume g.good g.range
        (distinct-onto (p ∷ xs) [] g.apart refl (λ x e. refl)) (omega (arith, size, lt)) ch in
    rw (z) (
      fr.entries d (rw (g.fat_sectors) h)
      ∙ ap (λ b. if b then 0 else fat_next_cluster d s.volume) (elem-onto d (p ∷ xs) [])
      ∙ given_back v (p ∷ xs) s g d h)

-- `n` clusters have been taken: the list of them, the last first, which is a chain from `s.first` on.
pub record Linked (v : Volume) (n : ℕ) (s : Chaining) : Type 0 where
  pub clusters : List ℕ
  pub counted : length clusters ≡ n
  pub grown : Grown v clusters s
  pub chained : IsChain s.volume (origin 0xFFF clusters) (onto clusters [])

-- The disk has no `n` free clusters, and the entries are as before.
pub record Full (v : Volume) (n : ℕ) (s : Chaining) : Type 0 where
  pub clusters : List ℕ
  pub counted : length clusters < n
  pub all :
      (d : ℕ)
      → 2 ≤ d
      → d < 2 + data_clusters_max v
      → fat_next_cluster d v ≡ 0
      → elem d clusters ≡ true
  pub same : (d : ℕ) → InTable v d → fat_next_cluster d s.volume ≡ fat_next_cluster d v

abbrev LinkedOrFull : Volume → ℕ → Bool × Chaining → Type 0
LinkedOrFull v n r = ((r.0 ≡ true) × Linked v n r.1) ⊎ ((r.0 ≡ false) × Full v n r.1)

same_clusters :
    (v : Volume) (rs : List ℕ) (s : Chaining)
    → Grown v rs s
    → data_clusters_max s.volume ≡ data_clusters_max v
unfolding data_clusters_max
same_clusters v rs s g = rw (g.data_lba, g.spc) refl

few_clusters : (v : Volume) → Sane v → data_clusters_max v ≤ 2880
unfolding data_clusters_max
few_clusters v sane =
    let h = sane.on_disk in
    let m : (2880 + 2 ^ 32 - v.data_lba) % 2 ^ 32 ≤ 2880 = omega arith in
    let d = div-le_self ((2880 + 2 ^ 32 - v.data_lba) % 2 ^ 32) (if v.spc == 0 then 1 else v.spc) in
    omega (arith, m, d)

full :
    (n : ℕ) (v : Volume) (rs : List ℕ) (s : Chaining)
    → Sane v
    → Grown v rs s
    → length rs + suc n < 65536
    → ((d : ℕ) → 2 ≤ d → d < 2 + data_clusters_max v → fat_next_cluster d s.volume ≢ 0)
    → Full v (length rs + suc n) (record s { volume = release s.first s.volume })
full n v rs s sane g lt busy = record {
  clusters = rs;
  counted = omega arith;
  all = λ d lo hi z. elim (Bool-cases (elem d rs)) [
    | inl inn ↦ inn
    | inr out ↦ absurd (busy d lo hi (g.entries d (sane.inside d hi) ∙ (rw (out) z)))
  ];
  same = released v rs s g (omega arith);
}

link_clusters-Grown :
    (n : ℕ) (v : Volume) (rs : List ℕ) (s : Chaining)
    → Sane v
    → Grown v rs s
    → length rs + n < 65536
    → LinkedOrFull v (length rs + n) (link_clusters n s)
unfolding link_clusters
link_clusters-Grown zero v rs s sane g lt = inl (
  refl,
  record { clusters = rs; counted = omega arith; grown = g; chained = Grown-IsChain v rs s g },
)
link_clusters-Grown (suc n) v rs s sane g lt =
    let a = fat_alloc_cluster s.volume in
    let most = same_clusters v rs s g in
    let behind = sane.behind in
    let fl = g.fat_lba in
    let fs = g.fat_sectors in
    let dl = g.data_lba in
    elim (fat_alloc_cluster_lem s.volume g.good g.range
      (λ d h. rw (g.fat_sectors) (sane.inside d (omega (arith, most, h)))) (omega arith)) [
        | inl ((none_left, same), busy) ↦
            let q : a.0 == 0 ≡ true = ground arith in
            rw (q, same)
              (inr (refl, full n v rs s sane g lt (λ d lo hi. busy d lo (omega (arith, most, hi)))))
        | inr ((lo, hi), (busy, t)) ↦
            let q : a.0 == 0 ≡ false = ground arith in
            let num : Numbered v a.0 = record {
              lo = lo;
              hi = (let few = few_clusters v sane in omega (arith, most, few, hi));
              inside = sane.inside a.0 (omega (arith, most, hi));
            } in
            let next = link a.0 a.1 s in
            let rest =
              link_clusters-Grown n v (a.0 ∷ rs) next sane (grow v rs a.0 a.1 s g num t)
                (omega arith) in
            rw (q) (subst (λ k. LinkedOrFull v k (link_clusters n next)) (omega arith) rest)
      ]

-- On a drive without errors whose data area lies behind both copies of the FAT and on the disk, and
-- whose clusters have their entries inside the table, the loop of `fat_write` that takes `n` clusters
-- (fewer than 65536) has one of two outcomes. Either it succeeds: it has taken `n` different clusters
-- that were free, they form a chain in this order, every other entry is as before, and so is every
-- sector behind the FAT outside of these clusters. Or it fails: the disk has fewer than `n` free
-- clusters, and every entry is as before.
pub link_clusters-Linked :
    (n : ℕ) (v : Volume)
    → Sane v
    → n < 65536
    → (let r = link_clusters n (record { first = 0; prev = 0; volume = v }) in
        ((r.0 ≡ true) × Linked v n r.1) ⊎ ((r.0 ≡ false) × Full v n r.1))
link_clusters-Linked n v sane lt =
    let start : Chaining = record { first = 0; prev = 0; volume = v } in
    subst (λ k. LinkedOrFull v k (link_clusters n start)) (omega arith)
      (link_clusters-Grown n v [] start sane (Grown-start v sane) (omega arith))
