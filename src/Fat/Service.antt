-- ===== src/Fat/Service.antt =====
-- The file system as kernel/syscall.c uses it: the functions of kernel/fat.c fill its interface.
use nova_kernel.Prelude.{
  ℕ, zero, suc, ◌+◌, ◌-◌, ◌*◌, ◌≤◌, ◌≡◌, Bool, true, false, not, ◌&&◌, ltb, leb, Option, none, some,
  List, arith, Bool-cases, inl, inr, Option-cases,
}
use nova_kernel.Fat.Disk.{Volume, Sector, get16, get32, ata_read_sector}
use nova_kernel.Fat.Name.{norm_name}
use nova_kernel.Fat.Table.{fat_next_cluster}
use nova_kernel.Fat.Dir.{find_entry, fat_stat}
use nova_kernel.Fat.File.{
  Buffer, wants, take_sector, read_sectors, read_chain, fat_read, fat_write, fat_delete,
}
use nova_kernel.Syscall.Services.{Fat}

module _ (fsize max : ℕ) where
  sector_le :
      (b : Sector) (r : Buffer) → wants fsize max r ≡ true → (take_sector fsize max b r).read ≤ max
  sector_le b r w = ground arith

  sectors_le :
      (n lba : ℕ) (v : Volume) (r : Buffer)
      → r.read ≤ max
      → (read_sectors fsize max n lba v r).1.read ≤ max
  unfolding read_sectors
  sectors_le zero lba v r h = h
  sectors_le (suc n) lba v r h = elim (Bool-cases (wants fsize max r)) [
    | inr enough ↦ rw (enough) h
    | inl more ↦ elim (Option-cases (ata_read_sector lba v)) [
      | inl bad ↦ rw (more, bad) h
      | inr (b, e) ↦
          rw (more, e) (sectors_le n (lba + 1) v (take_sector fsize max b r) (sector_le b r more))
    ]
  ]

  chain_le :
      (fuel c : ℕ) (v : Volume) (r : Buffer)
      → r.read ≤ max
      → (read_chain fsize max fuel c v r).1.read ≤ max
  unfolding read_chain
  chain_le zero c v r h = h
  chain_le (suc fuel) c v r h =
      let got = read_sectors fsize max v.spc (v.data_lba + (c - 2) * v.spc) v r in
      let g = sectors_le v.spc (v.data_lba + (c - 2) * v.spc) v r h in
      let rest = chain_le fuel (fat_next_cluster c v) v got.1 g in
      elim (Bool-cases (leb 2 c && ltb c 0xFF0 && wants fsize max r)) [
        | inr over ↦ rw (over) h
        | inl on ↦ elim (Bool-cases got.0) [
          | inl fine ↦ rw (on, fine) rest
          | inr bad ↦ rw (on, bad) g
        ]
      ]

-- a read never reports more bytes than the buffer has room for
pub fat_read_le :
    (v : Volume) (name : List ℕ) (max : ℕ) (out : ℕ → ℕ) → (fat_read name max out v).1 ≤ max
unfolding fat_read
fat_read_le v name max out = elim (Bool-cases (not v.mounted)) [
  | inl off ↦ rw (off) (omega arith)
  | inr on ↦ elim (Option-cases (find_entry (norm_name name) v)) [
    | inl missing ↦ rw (on, missing) (omega arith)
    | inr ((b, off), e) ↦
        let fsize = get32 b (off + 28) in
        let start : Buffer = record { read = 0; out = out } in
        let h = chain_le fsize max 65536 (get16 b (off + 26)) v start (omega arith) in
        let ch = read_chain fsize max 65536 (get16 b (off + 26)) v start in
        elim (Bool-cases ch.0) [
          | inl fine ↦ rw (on, e, fine) (omega arith)
          | inr bad ↦ rw (on, e, bad) (omega arith)
        ]
  ]
]

-- A write that has no end within its rounds, which only a volume without sectors in a cluster has,
-- counts as failed.
unfoldable pub write_result : Volume → Option (Bool × Volume) → Bool × Volume
write_result v none = (false, v)
write_result v (some r) = r

abbrev pub volume_services : Fat Volume
volume_services = record {
  read = λ v name max out. fat_read name max out v;
  write = λ v name bytes len. write_result v (fat_write name bytes len v);
  delete = λ v name. fat_delete name v;
  stat = λ v name. elim (fat_stat name v) [ none ↦ none | some s ↦ some s.size ];
  read_le = fat_read_le;
}
