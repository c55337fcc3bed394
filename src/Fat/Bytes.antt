-- ===== src/Fat/Bytes.antt =====
-- A copy of the FAT of kernel/fat.c as one array of bytes, on a drive without errors.
use nova_kernel.Prelude.{
  ℕ, ◌+◌, ◌/◌, ◌%◌, ◌<◌, ◌≡◌, ◌≢◌, refl, ap, true, arith, some, ◌==◌, if◌then◌else◌, update,
  Bool-cases, inl, inr,
}
use nova_kernel.Fat.Disk.{Sector, Volume, ata_read_sector, ata_write_sector}
use nova_kernel.Fat.Codec.{patch_lo-lt, patch_hi-lt}
use nova_kernel.Fat.Table.{
  entry_offset, decode_entry, patch_lo, patch_hi, fat_next_cluster, set_copy, patch_sector,
}

-- every sector can be read and written
pub record IsGood (v : Volume) : Type 0 where
  pub readable : (lba : ℕ) → v.readable lba ≡ true
  pub writable : (lba : ℕ) → v.writable lba ≡ true

-- the byte `i` of the array that begins at the sector `base`
abbrev pub byte_at : Volume → ℕ → ℕ → ℕ
byte_at v base i = v.sector (base + i / 512) (i % 512)

abbrev pub with_sector : Volume → ℕ → Sector → Volume
with_sector v lba b = record v { sector = update v.sector lba b }

pub read_ok : (v : Volume) (lba : ℕ) → IsGood v → ata_read_sector lba v ≡ some (v.sector lba)
unfolding ata_read_sector
read_ok v lba g = rw (g.readable lba)

pub write_ok :
    (v : Volume) (lba : ℕ) (b : Sector)
    → IsGood v
    → ata_write_sector lba b v ≡ (true, with_sector v lba b)
unfolding ata_write_sector
write_ok v lba b g = rw (g.writable lba)

patch_ok :
    (v : Volume) (lba : ℕ) (patch : Sector → Sector)
    → IsGood v
    → patch_sector lba patch v ≡ (true, with_sector v lba (patch (v.sector lba)))
patch_ok v lba patch g =
    rw (patch_sector, read_ok v lba g) (write_ok v lba (patch (v.sector lba)) g)

-- An entry is read from two bytes of the array that stand side by side, wherever the boundary of
-- the sectors lies.
pub fat_next_cluster_lem :
    (v : Volume) (c : ℕ)
    → IsGood v
    → fat_next_cluster c v
      ≡ decode_entry c
          (byte_at v v.fat_lba (entry_offset c))
          (byte_at v v.fat_lba (entry_offset c + 1))
unfolding fat_next_cluster
fat_next_cluster_lem v c g =
    let o = entry_offset c in
    elim (Bool-cases (o % 512 == 511)) [
      | inl split ↦
          let e : o % 512 ≡ 511 = ground arith in
          let q : (o + 1) / 512 ≡ o / 512 + 1 = omega arith in
          let r : (o + 1) % 512 ≡ 0 = omega arith in
          rw
            (
              fat_next_cluster,
              read_ok v (v.fat_lba + o / 512) g,
              split,
              read_ok v (v.fat_lba + o / 512 + 1) g,
              byte_at,
              e,
              q,
              r,
            )
            (ap (λ n. decode_entry c (v.sector (v.fat_lba + o / 512) 511) (v.sector n 0))
              (omega arith))
      | inr whole ↦
          let q : (o + 1) / 512 ≡ o / 512 = ground arith in
          let r : (o + 1) % 512 ≡ o % 512 + 1 = ground arith in
          rw (fat_next_cluster, read_ok v (v.fat_lba + o / 512) g, whole, byte_at, q, r)
    ]

-- every byte of every sector is one
abbrev pub IsBytes : Volume → Type 0
IsBytes v = (lba j : ℕ) → v.sector lba j < 256

-- What `set_copy` leaves of the volume: two bytes of the array are patched.
pub record Patched (base c value : ℕ) (v v' : Volume) : Type 0 where
  pub bytes :
      (i : ℕ)
      → byte_at v' base i ≡ (
          if i == entry_offset c
          then patch_lo c value (byte_at v base i)
          else if i == entry_offset c + 1
          then patch_hi c value (byte_at v base i)
          else byte_at v base i)
  pub elsewhere :
      (lba : ℕ)
      → lba ≢ base + entry_offset c / 512
      → lba ≢ base + (entry_offset c + 1) / 512
      → v'.sector lba ≡ v.sector lba
  pub fat_lba : v'.fat_lba ≡ v.fat_lba
  pub fat_sectors : v'.fat_sectors ≡ v.fat_sectors
  pub good : IsGood v'
  pub range : IsBytes v → IsBytes v'
  pub spc : v'.spc ≡ v.spc
  pub data_lba : v'.data_lba ≡ v.data_lba

whole_bytes :
    (S : ℕ → ℕ → ℕ) (f g : ℕ → ℕ) (base o i : ℕ)
    → o % 512 ≢ 511
    → (let b = S (base + o / 512) in
        let b' = update b (o % 512) (f (b (o % 512))) in
        update S
          (base + o / 512)
          (update b' (o % 512 + 1) (g (b' (o % 512 + 1))))
          (base + i / 512)
          (i % 512))
      ≡ (let x = S (base + i / 512) (i % 512) in
          if i == o then f x else if i == o + 1 then g x else x)
whole_bytes S f g base o i h = ground arith

module _ (S : ℕ → ℕ → ℕ) (f g : ℕ → ℕ) (base o : ℕ) (fb : (b : ℕ) → b < 256 → f b < 256)
    (gb : (b : ℕ) → b < 256 → g b < 256) (bytes : (lba j : ℕ) → S lba j < 256) (lba j : ℕ) where
  whole_range :
      (let b = S base in
        let b' = update b o (f (b o)) in update S base (update b' (o + 1) (g (b' (o + 1)))) lba j)
      < 256
  whole_range =
      let h1 = bytes lba j in
      let h2 = fb (S base o) (bytes base o) in
      let h3 = gb (S base (o + 1)) (bytes base (o + 1)) in ground arith

whole-Patched :
    (base c value : ℕ) (v : Volume)
    → IsGood v
    → entry_offset c % 512 ≢ 511
    → Patched base c value v (
        with_sector v (base + entry_offset c / 512) (
          let b = v.sector (base + entry_offset c / 512) in
          let b' = update b (entry_offset c % 512) (patch_lo c value (b (entry_offset c % 512))) in
          update b' (entry_offset c % 512 + 1) (patch_hi c value (b' (entry_offset c % 512 + 1)))))
whole-Patched base c value v g h = record {
  bytes = λ i. whole_bytes v.sector (patch_lo c value) (patch_hi c value) base (entry_offset c) i h;
  elsewhere = λ lba a b. ground arith;
  fat_lba = refl;
  fat_sectors = refl;
  good = record { readable = g.readable; writable = g.writable };
  range = λ b lba j.
      whole_range v.sector (patch_lo c value) (patch_hi c value) _ _ (patch_lo-lt c value)
        (patch_hi-lt c value) b lba j;
  spc = refl;
  data_lba = refl;
}

split_bytes :
    (S : ℕ → ℕ → ℕ) (f g : ℕ → ℕ) (base o i : ℕ)
    → o % 512 ≡ 511
    → (let lba = base + o / 512 in
        let S1 = update S lba (update (S lba) 511 (f (S lba 511))) in
        update S1
          (lba + 1)
          (update (S1 (lba + 1)) 0 (g (S1 (lba + 1) 0)))
          (base + i / 512)
          (i % 512))
      ≡ (let x = S (base + i / 512) (i % 512) in
          if i == o then f x else if i == o + 1 then g x else x)
split_bytes S f g base o i h = ground arith

module _ (S : ℕ → ℕ → ℕ) (f g : ℕ → ℕ) (base : ℕ) (fb : (b : ℕ) → b < 256 → f b < 256)
    (gb : (b : ℕ) → b < 256 → g b < 256) (bytes : (lba j : ℕ) → S lba j < 256) (lba j : ℕ) where
  split_range :
      (let S1 = update S base (update (S base) 511 (f (S base 511))) in
        update S1 (base + 1) (update (S1 (base + 1)) 0 (g (S1 (base + 1) 0))) lba j)
      < 256
  split_range =
      let h1 = bytes lba j in
      let h2 = fb (S base 511) (bytes base 511) in
      let h3 = gb (S (base + 1) 0) (bytes (base + 1) 0) in ground arith

split-Patched :
    (base c value : ℕ) (v : Volume)
    → IsGood v
    → entry_offset c % 512 ≡ 511
    → (let lba = base + entry_offset c / 512 in
        let v1 =
          with_sector v lba (update (v.sector lba) 511 (patch_lo c value (v.sector lba 511))) in
        Patched base c value v (
          with_sector v1
            (lba + 1)
            (update (v1.sector (lba + 1)) 0 (patch_hi c value (v1.sector (lba + 1) 0)))))
split-Patched base c value v g h = record {
  bytes = λ i. split_bytes v.sector (patch_lo c value) (patch_hi c value) base (entry_offset c) i h;
  elsewhere = λ lba a b. ground arith;
  fat_lba = refl;
  fat_sectors = refl;
  good = record { readable = g.readable; writable = g.writable };
  range = λ b lba j.
      split_range v.sector (patch_lo c value) (patch_hi c value) _ (patch_lo-lt c value)
        (patch_hi-lt c value) b lba j;
  spc = refl;
  data_lba = refl;
}

pub set_copy-Patched :
    (base c value : ℕ) (v : Volume)
    → IsGood v
    → ((set_copy base c value v).0 ≡ true) × Patched base c value v (set_copy base c value v).1
unfolding set_copy
set_copy-Patched base c value v g = elim (Bool-cases (entry_offset c % 512 == 511)) [
  | inl split ↦
      let first = with_sector v (base + entry_offset c / 512) (
        update (v.sector (base + entry_offset c / 512)) 511
          (patch_lo c value (v.sector (base + entry_offset c / 512) 511))) in
      let g1 : IsGood first = record { readable = g.readable; writable = g.writable } in
      rw
        (
          split,
          patch_ok v (base + entry_offset c / 512) _ g,
          patch_ok first (base + entry_offset c / 512 + 1) _ g1,
        )
        (refl, split-Patched base c value v g (ground arith))
  | inr whole ↦
      rw (whole, patch_ok v (base + entry_offset c / 512) _ g)
        (refl, whole-Patched base c value v g (ground arith))
]
