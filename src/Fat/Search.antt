-- ===== src/Fat/Search.antt =====
-- The two searches of the directory in kernel/fat.c.
use nova_kernel.Prelude.{
  ℕ, zero, suc, ◌+◌, ◌≤◌, ◌≡◌, refl, true, false, ◌==◌, arith, List, Option, none, some, Bool-cases,
  inl, inr, ap,
}
use nova_kernel.Fat.Disk.{Sector, Volume, ata_read_sector}
use nova_kernel.Fat.Name.{dir_match}
use nova_kernel.Fat.Dir.{
  Scan, hit, ended, go_on, scan, find_from, find_entry, Slot, SlotScan, stop, more, free_slot,
  remember_free, slot_scan, slot_from, dir_find_slot,
}

-- Both found the entry at the same place, or both found none.
pub Same : Volume → Option (Sector × ℕ) → Option Slot → Type 0
Same v none none = 0 ≤ 0
Same v none (some s) = s.existed ≡ false
Same v (some e) none = 1 ≤ 0
Same v (some (b, off)) (some s) = (s.existed ≡ true) × (s.off ≡ off) × (v.sector s.lba ≡ b)

-- the same for the sector `lba`
SameScan : ℕ → Scan → SlotScan → Type 0
SameScan lba (hit off) (stop none) = 1 ≤ 0
SameScan lba (hit off) (stop (some s)) = (s.existed ≡ true) × (s.off ≡ off) × (s.lba ≡ lba)
SameScan lba (hit off) (more f) = 1 ≤ 0
SameScan lba ended (stop none) = 0 ≤ 0
SameScan lba ended (stop (some s)) = s.existed ≡ false
SameScan lba ended (more f) = 1 ≤ 0
SameScan lba go_on (stop r) = 1 ≤ 0
SameScan lba go_on (more f) = 0 ≤ 0

free_slot-ended : (lba : ℕ) (free : Option (ℕ × ℕ)) → SameScan lba ended (stop (free_slot free))
unfolding SameScan
free_slot-ended lba none = omega arith
free_slot-ended lba (some p) = refl

scans-Same :
    (n off lba : ℕ) (b : Sector) (norm : List ℕ) (free : Option (ℕ × ℕ))
    → SameScan lba (scan n off b norm) (slot_scan n off lba b norm free)
unfolding SameScan scan slot_scan
scans-Same zero off lba b norm free = omega arith
scans-Same (suc n) off lba b norm free = elim (Bool-cases (b off == 0x00)) [
  | inl e ↦ rw (e) (free_slot-ended lba (remember_free free lba off))
  | inr e ↦ rw (e) (elim (Bool-cases (b off == 0xE5)) [
    | inl d ↦ rw (d) (scans-Same n (off + 32) lba b norm (remember_free free lba off))
    | inr d ↦ rw (d) (elim (Bool-cases (b (off + 11) == 0x0F)) [
      | inl l ↦ rw (l) (scans-Same n (off + 32) lba b norm free)
      | inr l ↦ rw (l) (elim (Bool-cases (dir_match b off norm)) [
        | inl m ↦ rw (m) (refl, refl, refl)
        | inr m ↦ rw (m) (scans-Same n (off + 32) lba b norm free)
      ])
    ])
  ])
]

free_slot-Same : (v : Volume) (free : Option (ℕ × ℕ)) → Same v none (free_slot free)
unfolding Same
free_slot-Same v none = omega arith
free_slot-Same v (some p) = refl

-- a sector and what follows it
sector-Same :
    (v : Volume) (lba : ℕ) (x : Scan) (y : SlotScan) (others : Option (Sector × ℕ))
    (slots : Option (ℕ × ℕ) → Option Slot)
    → SameScan lba x y
    → ((free : Option (ℕ × ℕ)) → Same v others (slots free))
    → Same v
        (elim x [ hit off ↦ some (v.sector lba, off) | ended ↦ none | go_on ↦ others ])
        (elim y [ stop r ↦ r | more free' ↦ slots free' ])
unfolding Same SameScan
sector-Same v lba (hit off) (stop none) others slots h rest = h
sector-Same v lba (hit off) (stop (some s)) others slots (e, o, l) rest = (e, o, ap v.sector l)
sector-Same v lba (hit off) (more f) others slots h rest = absurd (omega (arith, h))
sector-Same v lba ended (stop none) others slots h rest = h
sector-Same v lba ended (stop (some s)) others slots h rest = h
sector-Same v lba ended (more f) others slots h rest = absurd (omega (arith, h))
sector-Same v lba go_on (stop r) others slots h rest = absurd (omega (arith, h))
sector-Same v lba go_on (more f) others slots h rest = rest f

from-Same :
    (n lba : ℕ) (norm : List ℕ) (free : Option (ℕ × ℕ)) (v : Volume)
    → Same v (find_from n lba norm v) (slot_from n lba norm free v)
unfolding find_from slot_from ata_read_sector
from-Same zero lba norm free v = free_slot-Same v free
from-Same (suc n) lba norm free v = elim (Bool-cases (v.readable lba)) [
  | inl e ↦
      rw (find_from, slot_from, ata_read_sector, e)
        (sector-Same v lba (scan 16 0 (v.sector lba) norm)
          (slot_scan 16 0 lba (v.sector lba) norm free) (find_from n (lba + 1) norm v)
          (λ f. slot_from n (lba + 1) norm f v) (scans-Same 16 0 lba (v.sector lba) norm free)
          (λ f. from-Same n (lba + 1) norm f v))
  | inr e ↦ rw (find_from, slot_from, ata_read_sector, e) (free_slot-Same v none)
]

-- The search of `fat_read` and `fat_stat` and that of `fat_write` and `fat_delete` agree on every
-- volume: they find the same entry, or the second says that none existed.
pub find_entry-dir_find_slot :
    (norm : List ℕ) (v : Volume) → Same v (find_entry norm v) (dir_find_slot norm v)
unfolding find_entry dir_find_slot
find_entry-dir_find_slot norm v = from-Same v.root_sectors v.root_lba norm none v
