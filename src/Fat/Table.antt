-- ===== src/Fat/Table.antt =====
-- The file allocation table of kernel/fat.c: entries of 12 bits, in two copies.
use nova_kernel.Prelude.{
  ℕ, zero, suc, ◌+◌, ◌-◌, ◌*◌, ◌/◌, ◌%◌, ◌^◌, Bool, true, false, none, some, ◌==◌, if◌then◌else◌,
  update, ◌&&◌, leb, ltb,
}
use nova_kernel.Fat.Disk.{Sector, Volume, ata_read_sector, ata_write_sector}

-- the byte offset of an entry: cluster + cluster / 2
abbrev pub entry_offset : ℕ → ℕ
entry_offset c = c + c / 2

-- v = lo | (hi << 8); odd entries are the high 12 bits, even ones the low 12 bits
unfoldable pub decode_entry : ℕ → ℕ → ℕ → ℕ
decode_entry c lo hi = let v = lo + hi * 256 in if c % 2 == 0 then v % 0x1000 else v / 16

-- the first byte of an entry with `value` put in
unfoldable pub patch_lo : ℕ → ℕ → ℕ → ℕ
patch_lo c value b = if c % 2 == 0 then value % 256 else b % 16 + value % 16 * 16

-- and the second
unfoldable pub patch_hi : ℕ → ℕ → ℕ → ℕ
patch_hi c value b = if c % 2 == 0 then b / 16 * 16 + value / 256 % 16 else value / 16 % 256

-- An unreadable sector reads as the end of the chain.
unfoldable pub fat_next_cluster : ℕ → Volume → ℕ
fat_next_cluster c v =
    let offset = entry_offset c in
    let lba = v.fat_lba + offset / 512 in
    let off = offset % 512 in
    elim (ata_read_sector lba v) [
      | none ↦ 0x0FFF
      | some b ↦
          if off == 511
          then elim (ata_read_sector (lba + 1) v) [
            | none ↦ 0x0FFF
            | some b' ↦ decode_entry c (b 511) (b' 0)
          ]
          else decode_entry c (b off) (b (off + 1))
    ]

-- The part of an entry that stands in one sector: read it, patch it, write it.
abbrev pub patch_sector : ℕ → (Sector → Sector) → Volume → Bool × Volume
patch_sector lba patch v = elim (ata_read_sector lba v) [
  | none ↦ (false, v)
  | some b ↦ ata_write_sector lba (patch b) v
]

-- One round of the loop of `fat_set`, for the copy that begins at the sector `base`.
unfoldable pub set_copy : ℕ → ℕ → ℕ → Volume → Bool × Volume
set_copy base c value v =
    let offset = entry_offset c in
    let lba = base + offset / 512 in
    let off = offset % 512 in
    let first = patch_sector lba (λ b. update b 511 (patch_lo c value (b 511))) v in
    let both = λ (b : Sector).
      let b' = update b off (patch_lo c value (b off)) in
      update b' (off + 1) (patch_hi c value (b' (off + 1))) in
    if off == 511
    then (if first.0
        then patch_sector (lba + 1) (λ b. update b 0 (patch_hi c value (b 0))) first.1
        else first)
    else patch_sector lba both v

-- write one 12-bit entry into both FAT copies
unfoldable pub fat_set : ℕ → ℕ → Volume → Bool × Volume
fat_set c value v =
    let first = set_copy v.fat_lba c value v in
    if first.0 then set_copy (v.fat_lba + v.fat_sectors) c value first.1 else first

-- `total_sectors` is that of a 1.44MB floppy.
unfoldable pub data_clusters_max : Volume → ℕ
data_clusters_max v = (2880 + 2 ^ 32 - v.data_lba) % 2 ^ 32 / (if v.spc == 0 then 1 else v.spc)

-- The loop of `fat_free_chain`, which ends at a cluster outside 2..0xFEF or after `fuel` rounds,
-- the 65536 of `guard`.
unfoldable pub free_chain : ℕ → ℕ → Volume → Volume
free_chain zero cluster v = v
free_chain (suc fuel) cluster v =
    let rest = free_chain fuel (fat_next_cluster cluster v) (fat_set cluster 0 v).1 in
    if leb 2 cluster && ltb cluster 0xFF0 then rest else v

unfoldable pub fat_free_chain : ℕ → Volume → Volume
fat_free_chain cluster v = free_chain 65536 cluster v

-- for (s = 0; s < spc; s++): zero a sector of the cluster
unfoldable pub zero_sectors : ℕ → ℕ → Volume → Bool × Volume
zero_sectors zero lba v = (true, v)
zero_sectors (suc n) lba v =
    let w = ata_write_sector lba (λ _. 0) v in
    let rest = zero_sectors n (lba + 1) w.1 in if w.0 then rest else w

-- The loop of `fat_alloc_cluster`, with `n` clusters left from `c` on; 0 is "disk full".
unfoldable pub alloc_cluster_from : ℕ → ℕ → Volume → ℕ × Volume
alloc_cluster_from zero c v = (0, v)
alloc_cluster_from (suc n) c v =
    let rest = alloc_cluster_from n (c + 1) v in
    let marked = fat_set c 0x0FFF v in
    let zeroed = zero_sectors v.spc (v.data_lba + (c - 2) * v.spc) marked.1 in
    if fat_next_cluster c v == 0
    then (if marked.0 then (if zeroed.0 then c else 0, zeroed.1) else (0, marked.1))
    else rest

unfoldable pub fat_alloc_cluster : Volume → ℕ × Volume
fat_alloc_cluster v = alloc_cluster_from (data_clusters_max v) 2 v

-- The loop of `fat_free_bytes`.
unfoldable pub count_free_clusters : ℕ → ℕ → ℕ → Volume → ℕ
count_free_clusters zero c acc v = acc
count_free_clusters (suc n) c acc v =
    count_free_clusters n (c + 1) (if fat_next_cluster c v == 0 then acc + 1 else acc) v

unfoldable pub fat_free_bytes : Volume → ℕ
fat_free_bytes v =
    if v.mounted then count_free_clusters (data_clusters_max v) 2 0 v * v.spc * 512 % 2 ^ 32 else 0
