-- ===== src/Fat/Take.antt =====
-- Taking a free cluster, kernel/fat.c.
use nova_kernel.Prelude.{
  ℕ, zero, suc, ◌+◌, ◌-◌, ◌*◌, ◌%◌, ◌<◌, ◌≤◌, ◌≡◌, ◌≢◌, refl, sym, ap, ap₂, ◌∙◌, true, arith, ◌==◌,
  Bool-cases, inl, inr, ◌⊎◌,
}
use nova_kernel.Fat.Disk.{Sector, Volume}
use nova_kernel.Fat.Table.{
  entry_offset, decode_entry, fat_next_cluster, fat_set, zero_sectors, alloc_cluster_from,
  fat_alloc_cluster, data_clusters_max,
}
use nova_kernel.Fat.Bytes.{IsGood, IsBytes, with_sector, write_ok, fat_next_cluster_lem}
use nova_kernel.Fat.Entry.{InTable, Written, fat_set-Written}

-- Zeroing the sectors of a cluster leaves every sector below them, and the layout.
record Zeroed (lba n : ℕ) (v v' : Volume) : Type 0 where
  pub below : (k : ℕ) → k < lba → v'.sector k ≡ v.sector k
  pub zeros : (k j : ℕ) → lba ≤ k → k < lba + n → v'.sector k j ≡ 0
  pub above : (k : ℕ) → lba + n ≤ k → v'.sector k ≡ v.sector k
  pub fat_lba : v'.fat_lba ≡ v.fat_lba
  pub fat_sectors : v'.fat_sectors ≡ v.fat_sectors
  pub spc : v'.spc ≡ v.spc
  pub data_lba : v'.data_lba ≡ v.data_lba
  pub good : IsGood v'
  pub range : IsBytes v → IsBytes v'

zero_sector-IsBytes : (lba : ℕ) (v : Volume) → IsBytes v → IsBytes (with_sector v lba (λ _. 0))
zero_sector-IsBytes lba v b k i = let h = b k i in ground arith

zero_sectors-Zeroed :
    (n lba : ℕ) (v : Volume)
    → IsGood v
    → ((zero_sectors n lba v).0 ≡ true) × Zeroed lba n v (zero_sectors n lba v).1
unfolding zero_sectors
zero_sectors-Zeroed zero lba v g = (
  refl,
  record {
    below = λ k h. refl;
    zeros = λ k j a b. absurd (omega arith);
    above = λ k h. refl;
    fat_lba = refl;
    fat_sectors = refl;
    spc = refl;
    data_lba = refl;
    good = g;
    range = λ b. b;
  },
)
zero_sectors-Zeroed (suc n) lba v g =
    let v1 = with_sector v lba (λ _. 0) in
    let g1 : IsGood v1 = record { readable = g.readable; writable = g.writable } in
    let r = zero_sectors-Zeroed n (lba + 1) v1 g1 in
    rw (write_ok v lba (λ _. 0) g) (
      r.0,
      record {
        below = λ k h. r.1.below k (omega arith) ∙ ground arith;
        zeros = λ k j a b. elim (Bool-cases (k == lba)) [
          | inl first ↦ ap (λ (b : Sector). b j) (r.1.below k (ground arith)) ∙ ground arith
          | inr later ↦ r.1.zeros k j (ground arith) (omega arith)
        ];
        above = λ k h. r.1.above k (omega arith) ∙ ground arith;
        fat_lba = r.1.fat_lba;
        fat_sectors = r.1.fat_sectors;
        spc = r.1.spc;
        data_lba = r.1.data_lba;
        good = r.1.good;
        range = λ b. r.1.range (zero_sector-IsBytes lba v b);
      },
    )

-- The entries stand below the sectors that are zeroed.
Zeroed-entry :
    (lba n d : ℕ) (v v' : Volume)
    → Zeroed lba n v v'
    → IsGood v
    → InTable v d
    → v.fat_lba + v.fat_sectors ≤ lba
    → fat_next_cluster d v' ≡ fat_next_cluster d v
Zeroed-entry lba n d v v' z g t h =
    fat_next_cluster_lem v' d z.good
    ∙ (rw (z.fat_lba) (
        ap₂ (decode_entry d)
          (ap (λ (s : Sector). s (entry_offset d % 512)) (z.below _ (omega arith)))
          (ap (λ (s : Sector). s ((entry_offset d + 1) % 512)) (z.below _ (omega arith)))))
    ∙ sym (fat_next_cluster_lem v d g)

-- What a successful `fat_alloc_cluster` makes of the volume.
pub record Taken (c : ℕ) (v v' : Volume) : Type 0 where
  pub was_free : fat_next_cluster c v ≡ 0
  pub marked : fat_next_cluster c v' ≡ 0x0FFF
  pub others : (d : ℕ) → d ≢ c → InTable v d → fat_next_cluster d v' ≡ fat_next_cluster d v
  pub zeros :
      (k j : ℕ)
      → v.data_lba + (c - 2) * v.spc ≤ k
      → k < v.data_lba + (c - 2) * v.spc + v.spc
      → v'.sector k j ≡ 0
  pub outside :
      (k : ℕ)
      → v.fat_lba + 2 * v.fat_sectors ≤ k
      → (k < v.data_lba + (c - 2) * v.spc) ⊎ (v.data_lba + (c - 2) * v.spc + v.spc ≤ k)
      → v'.sector k ≡ v.sector k
  pub fat_lba : v'.fat_lba ≡ v.fat_lba
  pub fat_sectors : v'.fat_sectors ≡ v.fat_sectors
  pub spc : v'.spc ≡ v.spc
  pub data_lba : v'.data_lba ≡ v.data_lba
  pub good : IsGood v'
  pub range : IsBytes v'

outside_both :
    {c x lba n k : ℕ} {v m v' : Volume}
    → Zeroed lba n m v'
    → Written c x v m
    → v.fat_lba + 2 * v.fat_sectors ≤ k
    → (k < lba) ⊎ (lba + n ≤ k)
    → v'.sector k ≡ v.sector k
outside_both {k = k} z w h (inl a) = z.below k a ∙ w.outside k (inr h)
outside_both {k = k} z w h (inr a) = z.above k a ∙ w.outside k (inr h)

taken :
    (c : ℕ) (v : Volume)
    → IsGood v
    → IsBytes v
    → InTable v c
    → v.fat_lba + 2 * v.fat_sectors ≤ v.data_lba
    → fat_next_cluster c v ≡ 0
    → (let m = fat_set c 0x0FFF v in
        let z = zero_sectors v.spc (v.data_lba + (c - 2) * v.spc) m.1 in
        (m.0 ≡ true) × (z.0 ≡ true) × Taken c v z.1)
taken c v g b t lay free =
    let w = fat_set-Written c 0x0FFF v g b (omega arith) t in
    let lba = v.data_lba + (c - 2) * v.spc in
    let z = zero_sectors-Zeroed v.spc lba (fat_set c 0x0FFF v).1 w.1.good in
    let m = (fat_set c 0x0FFF v).1 in
    let fs = w.1.fat_sectors in
    let fl = w.1.fat_lba in
    let high : m.fat_lba + m.fat_sectors ≤ lba = omega arith in
    let keep : (d : ℕ)
        → InTable v d
        → fat_next_cluster d (zero_sectors v.spc lba m).1 ≡ fat_next_cluster d m =
      λ d td. Zeroed-entry lba v.spc d m _ z.1 w.1.good (rw (fs) td) high in
    (
      w.0,
      z.0,
      record {
        was_free = free;
        marked = keep c t ∙ w.1.entry;
        others = λ d ne td. keep d td ∙ w.1.others d ne td;
        zeros = z.1.zeros;
        outside = λ k h out. outside_both z.1 w.1 h out;
        fat_lba = z.1.fat_lba ∙ w.1.fat_lba;
        fat_sectors = z.1.fat_sectors ∙ w.1.fat_sectors;
        spc = z.1.spc ∙ w.1.spc;
        data_lba = z.1.data_lba ∙ w.1.data_lba;
        good = z.1.good;
        range = z.1.range w.1.range;
      },
    )

busy_from :
    (c d : ℕ) (v : Volume) {e : ℕ}
    → fat_next_cluster c v ≢ 0
    → ((d : ℕ) → c + 1 ≤ d → d < e → fat_next_cluster d v ≢ 0)
    → c ≤ d
    → d < e
    → fat_next_cluster d v ≢ 0
busy_from c d v ne later a e = elim (Bool-cases (d == c)) [
  | inl same ↦ let q : d ≡ c = ground arith in rw (q) ne
  | inr other ↦ later d (ground arith) e
]

alloc_cluster_from_lem :
    (n c : ℕ) (v : Volume)
    → IsGood v
    → IsBytes v
    → 2 ≤ c
    → ((d : ℕ) → d < c + n → InTable v d)
    → v.fat_lba + 2 * v.fat_sectors ≤ v.data_lba
    → (let r = alloc_cluster_from n c v in
        (((r.0 ≡ 0) × (r.1 ≡ v)) × ((d : ℕ) → c ≤ d → d < c + n → fat_next_cluster d v ≢ 0))
        ⊎ (((c ≤ r.0) × (r.0 < c + n))
            × (((d : ℕ) → c ≤ d → d < r.0 → fat_next_cluster d v ≢ 0) × Taken r.0 v r.1)))
unfolding alloc_cluster_from
alloc_cluster_from_lem zero c v g b lo t lay = inl ((refl, refl), λ d a e. absurd (omega arith))
alloc_cluster_from_lem (suc n) c v g b lo t lay = elim (Bool-cases (fat_next_cluster c v == 0)) [
  | inl free ↦
      let k = taken c v g b (t c (omega arith)) lay (ground arith) in
      rw (free, k.0, k.1) (inr ((omega arith, omega arith), ((λ d a e. absurd (omega arith)), k.2)))
  | inr busy ↦
      let ne : fat_next_cluster c v ≢ 0 = ground arith in
      rw (busy)
        (elim (alloc_cluster_from_lem n (c + 1) v g b (omega arith) (λ d h. t d (omega arith))
          lay) [
            | inl full ↦
                inl (full.0, λ d a e. busy_from c d v ne (λ x y h. full.1 x y (omega arith)) a e)
            | inr ok ↦ inr (
              (omega (arith, ok.0.0), omega (arith, ok.0.1)),
              ((λ d a e. busy_from c d v ne ok.1.0 a e), ok.1.1),
            )
          ])
]

-- On a drive without errors whose data area lies behind both copies of the FAT, and whose clusters
-- have their entries inside the table, `fat_alloc_cluster` either returns 0, changes nothing, and
-- no cluster is free; or it returns the first free cluster, now marked as the end of a chain, with
-- its sectors zeroed, every other entry as before and every other sector behind the FAT unchanged.
pub fat_alloc_cluster_lem :
    (v : Volume)
    → IsGood v
    → IsBytes v
    → ((d : ℕ) → d < 2 + data_clusters_max v → InTable v d)
    → v.fat_lba + 2 * v.fat_sectors ≤ v.data_lba
    → (let r = fat_alloc_cluster v in
        (((r.0 ≡ 0) × (r.1 ≡ v))
          × ((d : ℕ) → 2 ≤ d → d < 2 + data_clusters_max v → fat_next_cluster d v ≢ 0))
        ⊎ (((2 ≤ r.0) × (r.0 < 2 + data_clusters_max v))
            × (((d : ℕ) → 2 ≤ d → d < r.0 → fat_next_cluster d v ≢ 0) × Taken r.0 v r.1)))
unfolding fat_alloc_cluster
fat_alloc_cluster_lem v g b t lay =
    alloc_cluster_from_lem (data_clusters_max v) 2 v g b (omega arith) t lay
