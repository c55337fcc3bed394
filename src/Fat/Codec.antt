-- ===== src/Fat/Codec.antt =====
-- A 12-bit entry in two bytes, kernel/fat.c.
use nova_kernel.Prelude.{ℕ, ◌+◌, ◌%◌, ◌<◌, ◌≡◌, arith}
use nova_kernel.Fat.Table.{decode_entry, patch_lo, patch_hi}

-- What is put into an entry is read back.
pub decode_entry-patch :
    (c value lo hi : ℕ)
    → value < 0x1000
    → lo < 256
    → hi < 256
    → decode_entry c (patch_lo c value lo) (patch_hi c value hi) ≡ value
unfolding decode_entry patch_lo patch_hi
decode_entry-patch c value lo hi hv hl hh = ground arith

pub patch_lo-lt : (c value b : ℕ) → b < 256 → patch_lo c value b < 256
unfolding patch_lo
patch_lo-lt c value b h = ground arith

pub patch_hi-lt : (c value b : ℕ) → b < 256 → patch_hi c value b < 256
unfolding patch_hi
patch_hi-lt c value b h = ground arith

-- Two entries that share a byte share no bits of it: the first byte of the entry after an even
-- one is its second byte.
pub entry_next_even :
    (c value lo hi b : ℕ)
    → c % 2 ≡ 0
    → lo < 256
    → b < 256
    → decode_entry (c + 1) (patch_hi c value b) hi ≡ decode_entry (c + 1) b hi
unfolding decode_entry patch_hi
entry_next_even c value lo hi b even hl hb = ground arith

pub entry_before_odd :
    (c value lo b : ℕ)
    → c % 2 ≡ 0
    → b < 256
    → decode_entry c lo (patch_lo (c + 1) value b) ≡ decode_entry c lo b
unfolding decode_entry patch_lo
entry_before_odd c value lo b even hb = ground arith
