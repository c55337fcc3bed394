-- ===== src/Fat/Grow.antt =====
-- A chain that `fat_write` of kernel/fat.c has taken so far, as the list of its clusters, the last first.
use nova_kernel.Prelude.{
  ℕ, ◌+◌, ◌-◌, ◌*◌, ◌<◌, ◌≤◌, ◌≡◌, ◌≢◌, refl, sym, ap, ◌∙◌, true, false, arith, ◌==◌, if◌then◌else◌,
  Bool-cases, inl, inr, ◌⊎◌, List, [], ◌∷◌, subst,
}
use nova_kernel.Fat.Disk.{Volume}
use nova_kernel.Fat.Table.{fat_next_cluster}
use nova_kernel.Fat.Bytes.{IsGood, IsBytes}
use nova_kernel.Fat.Entry.{InTable}
use nova_kernel.Fat.Chain.{elem, distinct}
use nova_kernel.Fat.Take.{Taken}
use nova_kernel.Fat.File.{Chaining, link}

-- what stands in the entry of a cluster of the list, when `n` stands in that of its head
abbrev pub follow : ℕ → List ℕ → ℕ → ℕ
follow n [] d = 0
follow n (x ∷ xs) d = if d == x then n else follow x xs d

-- the last of the list, or `n`
abbrev pub origin : ℕ → List ℕ → ℕ
origin n [] = n
origin n (x ∷ xs) = origin x xs

abbrev pub head_or : ℕ → List ℕ → ℕ
head_or n [] = n
head_or n (x ∷ xs) = x

-- a number of a cluster, whose entry lies in the table
pub record Numbered (v : Volume) (d : ℕ) : Type 0 where
  pub lo : 2 ≤ d
  pub hi : d < 0xFF0
  pub inside : InTable v d

abbrev pub first_lba : Volume → ℕ → ℕ
first_lba v d = v.data_lba + (d - 2) * v.spc

-- The sector `k` is no sector of the clusters of the list.
abbrev pub Avoids : Volume → ℕ → List ℕ → Type 0
Avoids v k rs = (d : ℕ) → elem d rs ≡ true → (k < first_lba v d) ⊎ (first_lba v d + v.spc ≤ k)

pub record Grown (v : Volume) (rs : List ℕ) (s : Chaining) : Type 0 where
  pub first : s.first ≡ origin 0 rs
  pub prev : s.prev ≡ head_or 0 rs
  pub entries :
      (d : ℕ)
      → InTable v d
      → fat_next_cluster d s.volume
        ≡ (if elem d rs then follow 0xFFF rs d else fat_next_cluster d v)
  pub free : (d : ℕ) → elem d rs ≡ true → fat_next_cluster d v ≡ 0
  pub members : (d : ℕ) → elem d rs ≡ true → Numbered v d
  pub apart : distinct rs ≡ true
  pub outside :
      (k : ℕ) → v.fat_lba + 2 * v.fat_sectors ≤ k → Avoids v k rs → s.volume.sector k ≡ v.sector k
  pub fat_lba : s.volume.fat_lba ≡ v.fat_lba
  pub fat_sectors : s.volume.fat_sectors ≡ v.fat_sectors
  pub spc : s.volume.spc ≡ v.spc
  pub data_lba : s.volume.data_lba ≡ v.data_lba
  pub good : IsGood s.volume
  pub range : IsBytes s.volume

follow_pos :
    (n : ℕ) (rs : List ℕ) (d : ℕ)
    → n ≢ 0
    → ((x : ℕ) → elem x rs ≡ true → x ≢ 0)
    → elem d rs ≡ true
    → follow n rs d ≢ 0
follow_pos n [] d hn hm e = absurd (ground arith)
follow_pos n (x ∷ xs) d hn hm e = elim (Bool-cases (d == x)) [
  | inl same ↦ rw (same) hn
  | inr other ↦
      rw (other)
        (follow_pos x xs d (hm x (ground arith)) (λ y h. hm y (ground arith)) (ground arith))
]

-- a cluster that is free is none of the chain's
free-elem :
    (v : Volume) (rs : List ℕ) (s : Chaining) (c : ℕ)
    → Grown v rs s
    → InTable v c
    → fat_next_cluster c s.volume ≡ 0
    → elem c rs ≡ false
free-elem v rs s c g t z = elim (Bool-cases (elem c rs)) [
  | inr out ↦ out
  | inl inn ↦
      let pos =
        follow_pos 0xFFF rs c (omega arith)
          (λ x h. let m = g.members x h in let lo = m.lo in omega arith) inn in
      let e = g.entries c t in
      absurd (
        pos (
          (let q : (if elem c rs then follow 0xFFF rs c else fat_next_cluster c v)
                ≡ follow 0xFFF rs c =
              rw (inn) refl in
            sym q ∙ sym e ∙ z)))
]

module _ (v : Volume) (rs : List ℕ) (s : Chaining) (c : ℕ) (v1 : Volume) (g : Grown v rs s)
    (num : Numbered v c) (t : Taken c s.volume v1) where
  at_base : (d : ℕ) → InTable v d → InTable s.volume d
  at_base d h = rw (g.fat_sectors) h

  pub new-elem : elem c rs ≡ false
  new-elem = free-elem v rs s c g num.inside t.was_free

  pub taken_entries :
      (d : ℕ)
      → InTable v d
      → fat_next_cluster d v1
        ≡ (if d == c then 0xFFF else if elem d rs then follow 0xFFF rs d else fat_next_cluster d v)
  taken_entries d h = elim (Bool-cases (d == c)) [
    | inl same ↦
        let q : d ≡ c = ground arith in rw (same) (ap (λ x. fat_next_cluster x v1) q ∙ t.marked)
    | inr other ↦ rw (other) (t.others d (ground arith) (at_base d h) ∙ g.entries d h)
  ]

  pub was_free : (d : ℕ) → elem d (c ∷ rs) ≡ true → fat_next_cluster d v ≡ 0
  was_free d h = elim (Bool-cases (d == c)) [
    | inl same ↦
        let q : d ≡ c = ground arith in
        ap (λ x. fat_next_cluster x v) q
        ∙ (let e = g.entries c num.inside in
            let out = new-elem in
            sym (
              (let r : (if elem c rs then follow 0xFFF rs c else fat_next_cluster c v)
                    ≡ fat_next_cluster c v =
                  rw (out) refl in
                e ∙ r))
            ∙ t.was_free)
    | inr other ↦ g.free d (ground arith)
  ]

  pub members : (d : ℕ) → elem d (c ∷ rs) ≡ true → Numbered v d
  members d h = elim (Bool-cases (d == c)) [
    | inl same ↦ let q : d ≡ c = ground arith in subst (Numbered v) (sym q) num
    | inr other ↦ g.members d (ground arith)
  ]

  pub taken_outside :
      (k : ℕ) → v.fat_lba + 2 * v.fat_sectors ≤ k → Avoids v k (c ∷ rs) → v1.sector k ≡ v.sector k
  taken_outside k h av =
      let fl = g.fat_lba in
      let fs = g.fat_sectors in
      let own = av c (ground arith) in
      let place : s.volume.data_lba + (c - 2) * s.volume.spc ≡ first_lba v c =
        ap (λ x. x + (c - 2) * s.volume.spc) g.data_lba
        ∙ ap (λ x. v.data_lba + (c - 2) * x) g.spc in
      t.outside k (omega arith) (elim own [
        | inl below ↦ inl (omega (arith, place, below))
        | inr above ↦ inr (let sp = g.spc in omega (arith, place, above, sp))
      ])
      ∙ g.outside k h (λ d e. av d (ground arith))

pub grow_first :
    (v : Volume) (c : ℕ) (v1 : Volume) (s : Chaining)
    → Grown v [] s
    → Numbered v c
    → Taken c s.volume v1
    → Grown v (c ∷ []) (link c v1 s)
grow_first v c v1 s g num t =
    let p : s.prev == 0 ≡ true = (let e = g.prev in ground arith) in
    let f : s.first == 0 ≡ true = (let e = g.first in ground arith) in
    rw (p, f)
      (record {
        first = refl;
        prev = refl;
        entries = λ d h. taken_entries v [] s c v1 g num t d h ∙ ground arith;
        free = was_free v [] s c v1 g num t;
        members = members v [] s c v1 g num t;
        apart = refl;
        outside = taken_outside v [] s c v1 g num t;
        fat_lba = t.fat_lba ∙ g.fat_lba;
        fat_sectors = t.fat_sectors ∙ g.fat_sectors;
        spc = t.spc ∙ g.spc;
        data_lba = t.data_lba ∙ g.data_lba;
        good = t.good;
        range = t.range;
      })
