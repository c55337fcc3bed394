-- ===== src/Fat/Tests.antt =====
-- Runs and witnesses of the file allocation table on a small formatted volume.
use nova_kernel.Prelude.{
  ℕ, ◌+◌, ◌<◌, ◌≡◌, refl, true, arith, ◌==◌, if◌then◌else◌, inr, ◌⊎◌, [], false, some, codes, ◌%◌,
  ◌∷◌, ◌||◌,
}
use nova_kernel.Fat.Disk.{Sector, Volume, ata_read_sector}
use nova_kernel.Fat.Table.{
  decode_entry, fat_next_cluster, fat_set, fat_free_chain, data_clusters_max,
}
use nova_kernel.Fat.Bytes.{IsGood, IsBytes}
use nova_kernel.Fat.Entry.{InTable, Written, fat_set-Written}
use nova_kernel.Fat.Chain.{IsChain, Freed, fat_free_chain-Freed}
use nova_kernel.Fat.Name.{norm_name}
use nova_kernel.Fat.Dir.{Slot}
use nova_kernel.Fat.File.{link_clusters, write_at, clusters_for}
use nova_kernel.Fat.Payload.{Placed, write_at-Placed}
use nova_kernel.Fat.Link.{Sane, Linked, Full, link_clusters-Linked}

-- Two copies of nine sectors from sector 1 on, and data from sector 33 on. The entry of cluster 2 is
-- 3, that of cluster 3 ends the chain, and every other entry is 0.
abbrev first_sector : Sector
first_sector i = if i == 3 then 3 else if i == 4 then 0xF0 else if i == 5 then 0xFF else 0

abbrev floppy : Volume
floppy = record {
  mounted = true;
  root_lba = 19;
  data_lba = 33;
  root_sectors = 14;
  fat_lba = 1;
  fat_sectors = 9;
  spc = 1;
  sector = λ lba. if lba == 1 || lba == 10 then first_sector else λ _. 0;
  readable = λ _. true;
  writable = λ _. true;
}

floppy-IsGood : IsGood floppy
floppy-IsGood = record { readable = λ _. refl; writable = λ _. refl }

floppy-IsBytes : IsBytes floppy
floppy-IsBytes lba j = ground arith

next_two : fat_next_cluster 2 floppy ≡ 3
unfolding fat_next_cluster ata_read_sector decode_entry
next_two = refl

floppy-IsChain : IsChain floppy 2 (2 ∷ 3 ∷ [])
unfolding fat_next_cluster ata_read_sector decode_entry
floppy-IsChain = (
  refl,
  omega arith,
  omega arith,
  omega arith,
  (refl, omega arith, omega arith, omega arith, inr (omega arith)),
)

fat_free_chain-Freed_example : Freed (2 ∷ 3 ∷ []) floppy (fat_free_chain 2 floppy)
fat_free_chain-Freed_example =
    fat_free_chain-Freed 2 (2 ∷ 3 ∷ []) floppy floppy-IsGood floppy-IsBytes refl (omega arith)
      floppy-IsChain

floppy-InTable : (d : ℕ) → d < 2 + data_clusters_max floppy → InTable floppy d
unfolding data_clusters_max
floppy-InTable d h = omega arith

floppy-Sane : Sane floppy
floppy-Sane = record {
  good = floppy-IsGood;
  range = floppy-IsBytes;
  behind = omega arith;
  on_disk = omega arith;
  inside = floppy-InTable;
}

link_clusters-Linked_example :
    (let r = link_clusters 3 (record { first = 0; prev = 0; volume = floppy }) in
      ((r.0 ≡ true) × Linked floppy 3 r.1) ⊎ ((r.0 ≡ false) × Full floppy 3 r.1))
link_clusters-Linked_example = link_clusters-Linked 3 floppy floppy-Sane (omega arith)

abbrev some_slot : Slot
some_slot = record { lba = 19; off = 32; existed = false }

write_at-Placed_example :
    (let n = clusters_for 700 floppy in
      let r = write_at (norm_name (codes "b.txt")) (λ i. i % 256) 700 some_slot floppy in
      let s = (link_clusters n (record { first = 0; prev = 0; volume = floppy })).1 in
      Placed (norm_name (codes "b.txt")) (λ i. i % 256) 700 n some_slot floppy r
      ⊎ ((r ≡ some (false, s.volume)) × Full floppy n s))
write_at-Placed_example =
    write_at-Placed (norm_name (codes "b.txt")) (λ i. i % 256) 700 some_slot floppy floppy-Sane
      (omega arith) (omega arith) (omega arith) (omega arith)

fat_set-Written_example :
    ((fat_set 341 0xABC floppy).0 ≡ true) × Written 341 0xABC floppy (fat_set 341 0xABC floppy).1
fat_set-Written_example =
    fat_set-Written 341 0xABC floppy floppy-IsGood floppy-IsBytes (omega arith) (omega arith)
