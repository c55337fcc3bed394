-- ===== src/Fat/Disk.antt =====
-- The mounted volume of kernel/fat.c, and the sectors under it.
use nova_kernel.Prelude.{
  ℕ, ◌+◌, ◌*◌, ◌/◌, Bool, true, false, Option, none, some, ◌==◌, if◌then◌else◌, update, not,
}
use nova_kernel.Prelude.Words.{add32, mul32}

abbrev pub Sector : Type 0
Sector = ℕ → ℕ

-- The static variables, and the drive: which sectors it reads and writes without an error is its
-- own business, and `present` is `ata_present`.
pub record Volume : Type 0 where
  pub mounted : Bool
  pub root_lba : ℕ
  pub data_lba : ℕ
  pub root_sectors : ℕ
  pub fat_lba : ℕ
  pub fat_sectors : ℕ
  pub spc : ℕ
  pub sector : ℕ → Sector
  pub readable : ℕ → Bool
  pub writable : ℕ → Bool

-- `none` is the result 0.
unfoldable pub ata_read_sector : ℕ → Volume → Option Sector
ata_read_sector lba v = if v.readable lba then some (v.sector lba) else none

-- a write that fails leaves the sector as it was
unfoldable pub ata_write_sector : ℕ → Sector → Volume → Bool × Volume
ata_write_sector lba b v =
    if v.writable lba then (true, record v { sector = update v.sector lba b }) else (false, v)

-- b[i] | (b[i + 1] << 8)
abbrev pub get16 : Sector → ℕ → ℕ
get16 b i = b i + b (i + 1) * 256

-- the four bytes from `i` on
abbrev pub get32 : Sector → ℕ → ℕ
get32 b i = b i + b (i + 1) * 256 + b (i + 2) * 65536 + b (i + 3) * 16777216

-- `ata_init` has set `ata_present` to its argument. The fields of `struct fat_bpb` stand at their
-- packed offsets.
unfoldable pub fat_mount : Bool → Volume → Bool × Volume
fat_mount present v =
    let v0 = record v { mounted = false } in
    let mount = λ (b : Sector).
      let fat = get16 b 14 in
      let size = get16 b 22 in
      let root = add32 fat (mul32 (b 16) size) in
      let root_sectors = (get16 b 17 * 32 + 511) / 512 in
      record v {
        mounted = true;
        fat_lba = fat;
        fat_sectors = size;
        root_lba = root;
        root_sectors = root_sectors;
        data_lba = add32 root root_sectors;
        spc = if b 13 == 0 then 1 else b 13;
      } in
    if not present then (false, v0) else elim (ata_read_sector 0 v) [
      | none ↦ (false, v0)
      | some b ↦ if get16 b 11 == 512 then (true, mount b) else (false, v0)
    ]
