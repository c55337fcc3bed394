-- ===== src/User.antt =====
-- The loader of user programs, kernel/user.c. The image is a function from the offset to a byte, and
-- `mem` shows the bytes at the virtual addresses of the address space that is loaded, which is the
-- current one; the pages behind it are those of Paging, whose `stray` a copy sets that leaves them.
pub mod Window
pub mod Spawn
pub mod Start
mod Tests
use nova_kernel.Prelude.{
  ℕ, zero, suc, ◌+◌, ◌-◌, ◌*◌, Bool, true, false, not, ◌&&◌, ◌||◌, leb, ltb, ◌==◌, if◌then◌else◌,
}
use nova_kernel.Prelude.Words.{add32, u32_mod}
use nova_kernel.Paging.{Paging, astray, paging_map_user_region}

abbrev pub user_text_base : ℕ
user_text_base = 0x200000

abbrev pub user_stack_top : ℕ
user_stack_top = 0x2F0000

abbrev pub pt_load : ℕ
pt_load = 1

pub record Loader : Type 0 where
  pub paging : Paging
  pub mem : ℕ → ℕ

-- the little-endian fields of the image
abbrev pub half : (ℕ → ℕ) → ℕ → ℕ
half img i = img i + img (i + 1) * 256

abbrev pub quad : (ℕ → ℕ) → ℕ → ℕ
quad img i = img i + img (i + 1) * 256 + img (i + 2) * 65536 + img (i + 3) * 16777216

-- struct elf32_phdr
pub record Segment : Type 0 where
  pub p_type : ℕ
  pub p_offset : ℕ
  pub p_vaddr : ℕ
  pub p_filesz : ℕ
  pub p_memsz : ℕ

-- ph[i], with the table at `phoff`
abbrev pub segment_at : (ℕ → ℕ) → ℕ → ℕ → Segment
segment_at img phoff i =
    let at = phoff + i * 32 in
    record {
      p_type = quad img at;
      p_offset = quad img (at + 4);
      p_vaddr = quad img (at + 8);
      p_filesz = quad img (at + 16);
      p_memsz = quad img (at + 20);
    }

-- memcpy of the file's bytes, and memset of what is left of the segment
abbrev pub copy_segment : (ℕ → ℕ) → Segment → (ℕ → ℕ) → ℕ → ℕ
copy_segment img s mem a =
    if ltb s.p_filesz s.p_memsz && leb (s.p_vaddr + s.p_filesz) a && ltb a (s.p_vaddr + s.p_memsz)
    then 0
    else if leb s.p_vaddr a && ltb a (s.p_vaddr + s.p_filesz)
    then img (s.p_offset + (a - s.p_vaddr))
    else mem a

-- the checks on a segment, in the arithmetic of u32
abbrev pub segment_ok : ℕ → Segment → Bool
segment_ok size s =
    not (ltb s.p_vaddr user_text_base)
    && not (ltb user_stack_top (add32 s.p_vaddr s.p_memsz))
    && not (ltb size (add32 s.p_offset s.p_filesz))

-- The bytes that are copied lie in the image, and in the pages that are mapped for the segment.
abbrev pub copy_fits : Segment → Bool
copy_fits s =
    leb s.p_filesz s.p_memsz
    && ltb (s.p_vaddr + s.p_memsz) u32_mod
    && ltb (s.p_offset + s.p_filesz) u32_mod

-- One round of the loop over the segments: whether it goes on. The code has no such check as
-- `copy_fits`: without it the copy leaves the pages of the segment, and the run goes astray.
unfoldable pub load_segment : ℕ → (ℕ → ℕ) → ℕ → Segment → Loader → Bool × Loader
load_segment cr3 img size s l =
    let (mapped, paging) = paging_map_user_region cr3 s.p_vaddr s.p_memsz l.paging in
    if not (s.p_type == pt_load)
    then (true, l)
    else if not (segment_ok size s)
    then (false, l)
    else if not mapped
    then (false, record l { paging = paging })
    else (
      true,
      record {
        paging = if copy_fits s then paging else astray paging;
        mem = copy_segment img s l.mem;
      },
    )

-- That loop, with `n` segments left from `i` on.
unfoldable pub load_from : ℕ → ℕ → ℕ → (ℕ → ℕ) → ℕ → ℕ → Loader → Bool × Loader
load_from zero i cr3 img size phoff l = (true, l)
load_from (suc n) i cr3 img size phoff l =
    let one = load_segment cr3 img size (segment_at img phoff i) l in
    let rest = load_from n (i + 1) cr3 img size phoff one.1 in if one.0 then rest else one

-- the checks on the header
abbrev pub header_ok : (ℕ → ℕ) → ℕ → Bool
header_ok img size =
    not (ltb size 52)
    && img 0 == 0x7F
    && img 1 == b'E'
    && img 2 == b'L'
    && img 3 == b'F'
    && half img 18 == 3
    && half img 16 == 2
    && not (ltb size (add32 (quad img 28) (half img 44 * 32)))

-- The result is the entry point, or 0. A table of segments whose end wraps is read from outside the
-- image.
unfoldable pub user_load_elf : ℕ → (ℕ → ℕ) → ℕ → Loader → ℕ × Loader
user_load_elf cr3 img size l =
    let inside = ltb (quad img 28 + half img 44 * 32) u32_mod in
    let start = if inside then l else record l { paging = astray l.paging } in
    let loaded = load_from (half img 44) 0 cr3 img size (quad img 28) start in
    if not (header_ok img size) then (0, l) else (if loaded.0 then quad img 24 else 0, loaded.1)
