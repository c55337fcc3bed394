-- ===== src/Fat/Runs.antt =====
-- Runs and witnesses of the directory and the files on a small volume.
use nova_kernel.Prelude.{
  ℕ, ◌+◌, ◌≡◌, ◌≢◌, refl, true, ltb, leb, arith, ◌==◌, if◌then◌else◌, ◌||◌, ◌&&◌, ◌-◌, ◌%◌, some,
  none, codes, get_or,
}
use nova_kernel.Fat.Disk.{Sector, Volume, ata_read_sector}
use nova_kernel.Fat.Table.{decode_entry, fat_next_cluster}
use nova_kernel.Fat.Name.{norm_name, split_base, extension, pad, dir_match}
use nova_kernel.Fat.Search.{Same, find_entry-dir_find_slot}
use nova_kernel.Fat.Total.{fat_write-total}
use nova_kernel.Fat.Dir.{dir_find_slot, find_entry, find_from, scan}
use nova_kernel.Fat.File.{fat_read, fat_write}
use nova_kernel.Fat.Read.{file_byte, has_clusters, fat_read-contents}

-- The entry of cluster 2 is 3, that of cluster 3 ends the chain.
abbrev table_sector : Sector
table_sector i = if i == 3 then 3 else if i == 4 then 0xF0 else if i == 5 then 0xFF else 0

-- A deleted entry, and A.TXT of 600 bytes from cluster 2 on.
abbrev root_sector : Sector
root_sector i =
    if i == 0
    then 0xE5
    else if leb 32 i && ltb i 43
    then get_or (codes "A       TXT") (i - 32) 0
    else if i == 43
    then 0x20
    else if i == 58
    then 2
    else if i == 60
    then 0x58
    else if i == 61
    then 2
    else 0

abbrev disk : Volume
disk = record {
  mounted = true;
  root_lba = 19;
  data_lba = 33;
  root_sectors = 14;
  fat_lba = 1;
  fat_sectors = 9;
  spc = 1;
  sector = λ lba.
      if lba == 1 || lba == 10 then table_sector else if lba == 19 then root_sector else λ i.
      (lba + i) % 256;
  readable = λ _. true;
  writable = λ _. true;
}

found : find_entry (norm_name (codes "a.txt")) disk ≡ some (root_sector, 32)
unfolding find_entry find_from scan dir_match norm_name split_base extension pad ata_read_sector
found = refl

enough : has_clusters 65536 2 600 disk ≡ true
unfolding has_clusters fat_next_cluster ata_read_sector decode_entry
enough = refl

fat_read-contents_example :
    (let (done, size, buf) = fat_read (codes "a.txt") 4096 (λ i. 0) disk in
      (done ≡ true)
      × (size ≡ 600)
      × ((i : ℕ) → buf i ≡ (if ltb i 600 then file_byte 65536 2 i disk else 0)))
fat_read-contents_example =
    fat_read-contents (codes "a.txt") 4096 (λ i. 0) disk root_sector 32 refl (λ lba. refl) found
      enough

find_entry-dir_find_slot_example :
    Same disk
      (find_entry (norm_name (codes "a.txt")) disk)
      (dir_find_slot (norm_name (codes "a.txt")) disk)
find_entry-dir_find_slot_example = find_entry-dir_find_slot (norm_name (codes "a.txt")) disk

fat_write-total_example : fat_write (codes "b.txt") (λ i. i % 256) 700 disk ≢ none
fat_write-total_example = fat_write-total (codes "b.txt") (λ i. i % 256) 700 disk (omega arith)
