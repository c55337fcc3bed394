-- ===== src/Fat/Dir.antt =====
-- The root directory of kernel/fat.c: sixteen entries of 32 bytes in each sector.
use nova_kernel.Prelude.{
  ℕ, zero, suc, ◌-◌, ◌+◌, ◌/◌, ◌%◌, Bool, true, false, not, ◌||◌, ◌==◌, if◌then◌else◌, List, [],
  ◌∷◌, ◌++◌, Option, none, some, length,
}
use nova_kernel.Fat.Disk.{Sector, Volume, ata_read_sector, get16, get32}
use nova_kernel.Fat.Name.{norm_name, dir_match}

-- What a look at the entries of one sector gives: the offset of the entry, the end of the
-- directory, or nothing yet.
pub data Scan : Type 0 where
  hit : (off : ℕ) → Scan
  ended : Scan
  go_on : Scan

-- The inner loop of `fat_read` and `fat_stat`, with `n` entries left from `off` on.
unfoldable pub scan : ℕ → ℕ → Sector → List ℕ → Scan
scan zero off b norm = go_on
scan (suc n) off b norm =
    let rest = scan n (off + 32) b norm in
    if b off == 0x00
    then ended
    else if b off == 0xE5 || b (off + 11) == 0x0F
    then rest
    else if dir_match b off norm
    then hit off
    else rest

-- The outer loop, with `n` sectors left from `lba` on: the sector and the offset of the entry.
unfoldable pub find_from : ℕ → ℕ → List ℕ → Volume → Option (Sector × ℕ)
find_from zero lba norm v = none
find_from (suc n) lba norm v = elim (ata_read_sector lba v) [
  | none ↦ none
  | some b ↦ elim (scan 16 0 b norm) [
    | hit off ↦ some (b, off)
    | ended ↦ none
    | go_on ↦ find_from n (lba + 1) norm v
  ]
]

unfoldable pub find_entry : List ℕ → Volume → Option (Sector × ℕ)
find_entry norm v = find_from v.root_sectors v.root_lba norm v

pub record Stat : Type 0 where
  pub size : ℕ
  pub cluster : ℕ
  pub attr : ℕ

unfoldable pub fat_stat : List ℕ → Volume → Option Stat
fat_stat name v = if not v.mounted then none else elim (find_entry (norm_name name) v) [
  | none ↦ none
  | some (b, off) ↦
      some (record { size = get32 b (off + 28); cluster = get16 b (off + 26); attr = b (off + 11) })
]

-- Where `dir_find_slot` found the entry, or the first free one.
pub record Slot : Type 0 where
  pub lba : ℕ
  pub off : ℕ
  pub existed : Bool

-- The sector is done with a result, or with the first free entry so far.
pub data SlotScan : Type 0 where
  stop : Option Slot → SlotScan
  more : Option (ℕ × ℕ) → SlotScan

abbrev pub free_slot : Option (ℕ × ℕ) → Option Slot
free_slot none = none
free_slot (some (lba, off)) = some (record { lba = lba; off = off; existed = false })

-- if (!have_free) remember the entry
abbrev pub remember_free : Option (ℕ × ℕ) → ℕ → ℕ → Option (ℕ × ℕ)
remember_free none lba off = some (lba, off)
remember_free (some p) lba off = some p

-- The inner loop of `dir_find_slot`, with `n` entries left from `off` on.
unfoldable pub slot_scan : ℕ → ℕ → ℕ → Sector → List ℕ → Option (ℕ × ℕ) → SlotScan
slot_scan zero off lba b norm free = more free
slot_scan (suc n) off lba b norm free =
    let free' = remember_free free lba off in
    if b off == 0x00
    then stop (free_slot free')
    else if b off == 0xE5
    then slot_scan n (off + 32) lba b norm free'
    else if b (off + 11) == 0x0F
    then slot_scan n (off + 32) lba b norm free
    else if dir_match b off norm
    then stop (some (record { lba = lba; off = off; existed = true }))
    else slot_scan n (off + 32) lba b norm free

-- The outer loop, with `n` sectors left from `lba` on.
unfoldable pub slot_from : ℕ → ℕ → List ℕ → Option (ℕ × ℕ) → Volume → Option Slot
slot_from zero lba norm free v = free_slot free
slot_from (suc n) lba norm free v = elim (ata_read_sector lba v) [
  | none ↦ none
  | some b ↦ elim (slot_scan 16 0 lba b norm free) [
    | stop r ↦ r
    | more free' ↦ slot_from n (lba + 1) norm free' v
  ]
]

unfoldable pub dir_find_slot : List ℕ → Volume → Option Slot
dir_find_slot norm v = slot_from v.root_sectors v.root_lba norm none v

-- the bytes from `at` on, `n` at most, up to a space
unfoldable pub up_to_space : ℕ → ℕ → Sector → List ℕ
up_to_space zero at b = []
up_to_space (suc n) at b = if b at == 32 then [] else b at ∷ up_to_space n (at + 1) b

-- "BASE.EXT", without the spaces
unfoldable pub entry_name : Sector → ℕ → List ℕ
entry_name b off =
    up_to_space 8 off b ++ (if b (off + 8) == 32 then [] else b'.' ∷ up_to_space 3 (off + 8) b)

-- The inner loop of `fat_list`, with `n` entries left from `off` on and place for `room` names: the
-- files, and whether the directory ends in this sector.
unfoldable pub list_sector : ℕ → ℕ → ℕ → Sector → List (List ℕ × ℕ) × Bool
list_sector zero off room b = ([], false)
list_sector (suc n) off zero b = ([], false)
list_sector (suc n) off (suc room) b =
    let skip = list_sector n (off + 32) (suc room) b in
    let rest = list_sector n (off + 32) room b in
    if b off == 0x00
    then ([], true)
    else if b off == 0xE5
    then skip
    else if b (off + 11) == 0x0F
    then skip
    else if b (off + 11) / 8 % 2 == 1
    then skip
    else ((entry_name b off, get32 b (off + 28)) ∷ rest.0, rest.1)

-- The outer loop, with `n` sectors left from `lba` on. A sector that cannot be read ends the list.
unfoldable pub list_from : ℕ → ℕ → ℕ → Volume → List (List ℕ × ℕ)
list_from zero lba room v = []
list_from (suc n) lba zero v = []
list_from (suc n) lba (suc room) v = elim (ata_read_sector lba v) [
  | none ↦ []
  | some b ↦
      let (files, last) = list_sector 16 0 (suc room) b in
      if last then files else files ++ list_from n (lba + 1) (suc room - length files) v
]

unfoldable pub fat_list : ℕ → Volume → Option (List (List ℕ × ℕ))
fat_list max v = if not v.mounted then none else some (list_from v.root_sectors v.root_lba max v)
