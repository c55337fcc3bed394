-- ===== src/Mm/Bitmap.antt =====
-- The bitmap of kernel/mm.c as a set of frames.
use nova_kernel.Prelude.{ℕ, ◌/◌, ◌%◌, ◌<◌, ◌≡◌, not, ◌&&◌, ◌||◌, ◌==◌, arith}
use nova_kernel.Prelude.Bytes.{set_bit-lt, clear_bit-lt, test_bit-set_bit, test_bit-clear_bit}
use nova_kernel.Mm.{Mm, is_used, set_used, set_free}

-- Every entry of the bitmap is a `u8`.
abbrev pub IsBytes : Mm → Type 0
IsBytes m = (i : ℕ) → m.bitmap i < 256

-- Where a frame's bit stands in the bitmap.
pub bit_address : (i j : ℕ) → i / 8 ≡ j / 8 → (i == j) ≡ (i % 8 == j % 8)
bit_address i j h = ground arith

pub is_used-set_used :
    (m : Mm) (i j : ℕ) → IsBytes m → is_used (set_used m i) j ≡ ((i == j) || is_used m j)
unfolding is_used set_used
is_used-set_used m i j v =
    ground (arith, test_bit-set_bit (m.bitmap (i / 8)) (i % 8) (j % 8) (v (i / 8)), bit_address i j)

pub is_used-set_free :
    (m : Mm) (i j : ℕ) → IsBytes m → is_used (set_free m i) j ≡ (not (i == j) && is_used m j)
unfolding is_used set_free
is_used-set_free m i j v =
    ground
      (arith, test_bit-clear_bit (m.bitmap (i / 8)) (i % 8) (j % 8) (v (i / 8)), bit_address i j)

pub set_used-IsBytes : (m : Mm) (i : ℕ) → IsBytes m → IsBytes (set_used m i)
unfolding set_used
set_used-IsBytes m i v j = ground (arith, set_bit-lt (m.bitmap (i / 8)) (i % 8) (v (i / 8)), v j)

pub set_free-IsBytes : (m : Mm) (i : ℕ) → IsBytes m → IsBytes (set_free m i)
unfolding set_free
set_free-IsBytes m i v j = ground (arith, clear_bit-lt (m.bitmap (i / 8)) (i % 8) (v (i / 8)), v j)
