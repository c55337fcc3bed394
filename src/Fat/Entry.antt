-- ===== src/Fat/Entry.antt =====
-- The entries of the FAT, kernel/fat.c: what `fat_set` writes, `fat_get` reads.
use nova_kernel.Prelude.{
  ◌&&◌, ℕ, ◌+◌, ◌*◌, ◌/◌, ◌%◌, ◌<◌, ◌≤◌, ◌≡◌, ◌≢◌, refl, sym, ap, ap₂, ◌∙◌, true, arith, ◌==◌,
  if◌then◌else◌, Bool-cases, inl, inr, ◌⊎◌,
}
use nova_kernel.Fat.Disk.{Sector, Volume}
use nova_kernel.Fat.Codec.{decode_entry-patch, entry_next_even, entry_before_odd}
use nova_kernel.Fat.Table.{
  entry_offset, decode_entry, patch_lo, patch_hi, fat_next_cluster, set_copy, fat_set,
}
use nova_kernel.Fat.Bytes.{
  IsGood, IsBytes, Patched, set_copy-Patched, byte_at, fat_next_cluster_lem,
}

-- the two bytes of the entry lie inside the copy
abbrev pub InTable : Volume → ℕ → Type 0
InTable v c = (entry_offset c + 1) / 512 < v.fat_sectors

-- What a successful `fat_set c value` makes of the volume.
pub record Written (c value : ℕ) (v v' : Volume) : Type 0 where
  pub entry : fat_next_cluster c v' ≡ value
  pub others : (d : ℕ) → d ≢ c → InTable v d → fat_next_cluster d v' ≡ fat_next_cluster d v
  pub outside :
      (lba : ℕ)
      → (lba < v.fat_lba) ⊎ (v.fat_lba + 2 * v.fat_sectors ≤ lba)
      → v'.sector lba ≡ v.sector lba
  pub copies :
      (i : ℕ)
      → i / 512 < v.fat_sectors
      → byte_at v (v.fat_lba + v.fat_sectors) i ≡ byte_at v v.fat_lba i
      → byte_at v' (v.fat_lba + v.fat_sectors) i ≡ byte_at v' v.fat_lba i
  pub fat_lba : v'.fat_lba ≡ v.fat_lba
  pub fat_sectors : v'.fat_sectors ≡ v.fat_sectors
  pub spc : v'.spc ≡ v.spc
  pub data_lba : v'.data_lba ≡ v.data_lba
  pub good : IsGood v'
  pub range : IsBytes v'

-- the bytes of an array with an entry patched in
abbrev patched : ℕ → ℕ → (ℕ → ℕ) → ℕ → ℕ
patched c value t i =
    if i == entry_offset c
    then patch_lo c value (t i)
    else if i == entry_offset c + 1
    then patch_hi c value (t i)
    else t i

abbrev entry_of : ℕ → (ℕ → ℕ) → ℕ
entry_of c t = decode_entry c (t (entry_offset c)) (t (entry_offset c + 1))

patched_same :
    (c value : ℕ) (t : ℕ → ℕ)
    → value < 0x1000
    → ((i : ℕ) → t i < 256)
    → entry_of c (patched c value t) ≡ value
patched_same c value t hv ht =
    let lo = ht (entry_offset c) in
    let hi = ht (entry_offset c + 1) in
    let e = decode_entry-patch c value _ _ hv lo hi in ground arith

module _ (c value : ℕ) (t : ℕ → ℕ) where
  patched_miss : (i : ℕ) → i ≢ entry_offset c → i ≢ entry_offset c + 1 → patched c value t i ≡ t i
  patched_miss i a b = ground arith

  patched_lo : (i : ℕ) → i ≡ entry_offset c → patched c value t i ≡ patch_lo c value (t i)
  patched_lo i e = ground arith

  patched_hi : (i : ℕ) → i ≡ entry_offset c + 1 → patched c value t i ≡ patch_hi c value (t i)
  patched_hi i e = ground arith

patched_other :
    (c d value : ℕ) (t : ℕ → ℕ)
    → d ≢ c
    → ((i : ℕ) → t i < 256)
    → entry_of d (patched c value t) ≡ entry_of d t
patched_other c d value t ne ht = elim (Bool-cases (d == c + 1 && c % 2 == 0)) [
  | inl next ↦
      let e : d ≡ c + 1 = ground arith in
      let even : c % 2 ≡ 0 = ground arith in
      ap₂ (decode_entry d) (patched_hi c value t (entry_offset d) (omega arith))
        (patched_miss c value t (entry_offset d + 1) (omega arith) (omega arith))
      ∙ rw (e) (entry_next_even c value (t 0) _ _ even (ht 0) (ht _))
  | inr not_next ↦ elim (Bool-cases (c == d + 1 && d % 2 == 0)) [
    | inl before ↦
        let e : c ≡ d + 1 = ground arith in
        let even : d % 2 ≡ 0 = ground arith in
        ap₂ (decode_entry d) (patched_miss c value t (entry_offset d) (omega arith) (omega arith))
          (patched_lo c value t (entry_offset d + 1) (omega arith))
        ∙ rw (e) (entry_before_odd d value _ _ even (ht _))
    | inr not_before ↦
        let a : (d ≡ c + 1 → c % 2 ≡ 1) = λ e. ground arith in
        let b : (c ≡ d + 1 → d % 2 ≡ 1) = λ e. ground arith in
        let far : (entry_offset d + 1 < entry_offset c) ⊎ (entry_offset c + 1 < entry_offset d) =
          ground arith in
        ap₂ (decode_entry d) (patched_miss c value t (entry_offset d) (ground arith) (ground arith))
          (patched_miss c value t (entry_offset d + 1) (ground arith) (ground arith))
  ]
]

module _ (c value : ℕ) (v v1 v2 : Volume) (b : IsBytes v) (hv : value < 0x1000) (hc : InTable v c)
    (p : Patched v.fat_lba c value v v1)
    (q : Patched (v.fat_lba + v.fat_sectors) c value v1 v2) where
  base_same : v2.fat_lba ≡ v.fat_lba
  base_same = q.fat_lba ∙ p.fat_lba

  -- the second copy is written behind the first
  first_bytes :
      (i : ℕ)
      → i / 512 < v.fat_sectors
      → byte_at v2 v2.fat_lba i ≡ patched c value (byte_at v v.fat_lba) i
  first_bytes i hi = rw (base_same) (
      ap (λ (s : Sector). s (i % 512))
        (q.elsewhere (v.fat_lba + i / 512) (omega arith) (omega arith))
      ∙ p.bytes i)

  second_bytes :
      (i : ℕ)
      → i / 512 < v.fat_sectors
      → byte_at v2 (v.fat_lba + v.fat_sectors) i
        ≡ patched c value (byte_at v (v.fat_lba + v.fat_sectors)) i
  second_bytes i hi =
      let e : (j : ℕ)
          → j / 512 ≡ i / 512
          → byte_at v1 (v.fat_lba + v.fat_sectors) j ≡ byte_at v (v.fat_lba + v.fat_sectors) j =
        λ j h.
          ap (λ (s : Sector). s (j % 512))
            (p.elsewhere (v.fat_lba + v.fat_sectors + j / 512) (omega arith) (omega arith)) in
      q.bytes i ∙ rw (e i refl) refl

  read_after :
      (d : ℕ)
      → InTable v d
      → fat_next_cluster d v2 ≡ entry_of d (patched c value (byte_at v v.fat_lba))
  read_after d hd =
      fat_next_cluster_lem v2 d q.good
      ∙ ap₂ (decode_entry d) (first_bytes (entry_offset d) (omega arith))
          (first_bytes (entry_offset d + 1) hd)

  twice-Written : IsGood v → Written c value v v2
  twice-Written g = record {
    entry = read_after c hc ∙ patched_same c value (byte_at v v.fat_lba) hv (λ i. b _ _);
    others = λ d ne hd.
        read_after d hd
        ∙ patched_other c d value (byte_at v v.fat_lba) ne (λ i. b _ _)
        ∙ sym (fat_next_cluster_lem v d g);
    outside = λ lba out.
        q.elsewhere lba (ground arith) (ground arith)
        ∙ p.elsewhere lba (ground arith) (ground arith);
    copies =
        λ i hi same. second_bytes i hi ∙ rw (same) (sym (first_bytes i hi) ∙ rw (base_same) refl);
    fat_lba = base_same;
    fat_sectors = q.fat_sectors ∙ p.fat_sectors;
    spc = q.spc ∙ p.spc;
    data_lba = q.data_lba ∙ p.data_lba;
    good = q.good;
    range = q.range (p.range b);
  }

-- Clusters are numbered so that the entry lies inside the table, drives have no error, and every
-- byte is one: `fat_set` succeeds, the entry then reads as the value, every other entry reads as
-- before, no sector outside the two copies changes, and bytes at which the copies agreed still do.
pub fat_set-Written :
    (c value : ℕ) (v : Volume)
    → IsGood v
    → IsBytes v
    → value < 0x1000
    → InTable v c
    → ((fat_set c value v).0 ≡ true) × Written c value v (fat_set c value v).1
unfolding fat_set
fat_set-Written c value v g b hv hc =
    let p = set_copy-Patched v.fat_lba c value v g in
    let w = set_copy v.fat_lba c value v in
    let q = set_copy-Patched (v.fat_lba + v.fat_sectors) c value w.1 p.1.good in
    rw (p.0) (q.0, twice-Written c value v w.1 _ b hv hc p.1 q.1 g)
