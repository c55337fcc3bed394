-- ===== src/Syscall/Files.antt =====
-- The open files of kernel/syscall.c.
use nova_kernel.Prelude.{
  ℕ, zero, suc, ◌+◌, ◌-◌, Bool, true, false, not, ◌&&◌, ◌||◌, ltb, leb, ◌==◌, if◌then◌else◌, update,
  ◌%◌, ◌^◌, for_range, Option, none, some, List, [], ◌∷◌, ◌++◌, bit_and,
}
use nova_kernel.Prelude.Words.{u32_max, sub32}
use nova_kernel.Syscall.Services.{Fat}

abbrev pub user_mem_start : ℕ
user_mem_start = 0x200000

abbrev pub user_mem_end : ℕ
user_mem_end = 0x300000

abbrev pub max_open_files : ℕ
max_open_files = 8

abbrev pub ofile_cap : ℕ
ofile_cap = 2048

-- `struct open_file`; the name is kept without its NUL.
pub record OpenFile : Type 0 where
  pub used : Bool
  pub writable : Bool
  pub dirty : Bool
  pub size : ℕ
  pub pos : ℕ
  pub name : List ℕ
  pub content : ℕ → ℕ

-- The state that the calls work on: `ofiles`, the memory of the user window, the bytes that went
-- to the console, the volume, and the scheduler's state.
pub record Sys (V K : Type 0) : Type 0 where
  pub ofiles : ℕ → OpenFile
  pub memory : ℕ → ℕ
  pub console : List ℕ
  pub volume : V
  pub kernel : K

unfoldable pub user_range_ok : ℕ → ℕ → Bool
user_range_ok addr len =
    if len == 0
    then true
    else if ltb addr user_mem_start
    then false
    else if ltb user_mem_end addr
    then false
    else if ltb (sub32 user_mem_end addr) len
    then false
    else true

-- to[at + i] = from[src + i] for i < n
unfoldable pub copy_bytes : ℕ → (ℕ → ℕ) → ℕ → (ℕ → ℕ) → ℕ → ℕ → ℕ
copy_bytes n from src to at = for_range n 0 (λ i t. update t (at + i) (from (src + i))) to

-- the bytes of [addr, addr + n)
unfoldable pub bytes_at : (ℕ → ℕ) → ℕ → ℕ → List ℕ
bytes_at m addr zero = []
bytes_at m addr (suc n) = m addr ∷ bytes_at m (addr + 1) n

-- what a C function sees of a buffer that holds a string
unfoldable pub c_string : List ℕ → List ℕ
c_string [] = []
c_string (c ∷ cs) = if c == 0 then [] else c ∷ c_string cs

-- `local` of `sys_open`, `NR_UNLINK` and `NR_STAT`: the name, copied and terminated
unfoldable pub local_name : (ℕ → ℕ) → ℕ → ℕ → List ℕ
unfolding bytes_at c_string
local_name m addr len = c_string (bytes_at m addr len)

-- The signed 32-bit arithmetic is that of the bit patterns: a sum is negative from 2^31 on.
unfoldable pub seek_target : ℕ → ℕ → ℕ
seek_target base off =
    let np = (base + off) % 2 ^ 32 in
    let np' = if leb (2 ^ 31) np then 0 else np in if ltb ofile_cap np' then ofile_cap else np'

module _ {V K : Type 0} where
  abbrev pub with_file : Sys V K → ℕ → OpenFile → Sys V K
  with_file s fd f = record s { ofiles = update s.ofiles fd f }

  unfoldable pub sys_write_file : ℕ → ℕ → ℕ → Sys V K → Option (ℕ × Sys V K)
  sys_write_file fd buf len s =
      let f = s.ofiles fd in
      let room = sub32 ofile_cap f.pos in
      let n = if ltb room len then room else len in
      let pos = f.pos + n in
      let f' = record f {
        content = copy_bytes n s.memory buf f.content f.pos;
        pos = pos;
        size = if ltb f.size pos then pos else f.size;
        dirty = true;
      } in
      if leb max_open_files fd
      then some (u32_max, s)
      else if not f.used || not f.writable
      then some (u32_max, s)
      else if not (user_range_ok buf len)
      then some (u32_max, s)
      else if ltb ofile_cap pos
      then none
      else some (n, with_file s fd f')

  -- the console: every byte goes to `vga_putc` and `serial_putc`
  unfoldable pub sys_write : ℕ → ℕ → ℕ → Sys V K → Option (ℕ × Sys V K)
  sys_write fd buf len s =
      if leb 3 fd
      then sys_write_file fd buf len s
      else if not (user_range_ok buf len)
      then some (u32_max, s)
      else some (len, record s { console = s.console ++ bytes_at s.memory buf len })

  -- The loop of `alloc_fd`, with `n` descriptors left from `i` on.
  unfoldable pub fd_from : ℕ → ℕ → Sys V K → Option ℕ
  fd_from zero i s = none
  fd_from (suc n) i s =
      let rest = fd_from n (i + 1) s in if not (s.ofiles i).used then some i else rest

  -- `none` is -1.
  unfoldable pub alloc_fd : Sys V K → Option ℕ
  alloc_fd s = fd_from (max_open_files - 3) 3 s

  unfoldable pub sys_read : ℕ → ℕ → ℕ → Sys V K → Option (ℕ × Sys V K)
  sys_read fd buf len s =
      let f = s.ofiles fd in
      let avail = sub32 f.size f.pos in
      let n = if ltb avail len then avail else len in
      let s' = record s { memory = copy_bytes n f.content f.pos s.memory buf } in
      if leb max_open_files fd
      then some (u32_max, s)
      else if not f.used
      then some (u32_max, s)
      else if not (user_range_ok buf len)
      then some (u32_max, s)
      else if ltb ofile_cap (f.pos + n) && not (n == 0)
      then none
      else some (n, with_file s' fd (record f { pos = f.pos + n }))

  unfoldable pub sys_lseek : ℕ → ℕ → ℕ → Sys V K → ℕ × Sys V K
  sys_lseek fd off whence s =
      let f = s.ofiles fd in
      let base = if whence == 0 then 0 else if whence == 1 then f.pos else f.size in
      let np = seek_target base off in
      if leb max_open_files fd
      then (u32_max, s)
      else if not f.used
      then (u32_max, s)
      else (np, with_file s fd (record f { pos = np }))

  module _ (fat : Fat V) where
    -- `sys_open` once it has a free descriptor. The buffer is overwritten in either case.
    unfoldable pub open_at : ℕ → List ℕ → ℕ → Sys V K → ℕ × Sys V K
    open_at fd path flags s =
        let f = s.ofiles fd in
        let (exists, size, content) = fat.read s.volume path ofile_cap f.content in
        let trunc = not (bit_and flags 4 == 0) in
        let opened : OpenFile = record {
          used = true;
          writable = not (bit_and flags 7 == 0);
          dirty = trunc;
          size = if trunc then 0 else if exists then size else 0;
          pos = 0;
          name = path;
          content = content;
        } in
        if not exists && bit_and flags 2 == 0
        then (u32_max, with_file s fd (record f { content = content }))
        else (fd, with_file s fd opened)

    unfoldable pub sys_open : ℕ → ℕ → ℕ → Sys V K → ℕ × Sys V K
    sys_open name len flags s =
        if not (user_range_ok name len)
        then (u32_max, s)
        else if len == 0 || ltb 31 len
        then (u32_max, s)
        else elim (alloc_fd s) [
          | none ↦ (u32_max, s)
          | some fd ↦ open_at fd (local_name s.memory name len) flags s
        ]

    unfoldable pub sys_sync : ℕ → Sys V K → ℕ × Sys V K
    sys_sync fd s =
        let f = s.ofiles fd in
        let (done, v) = fat.write s.volume f.name f.content f.size in
        let s' = record s { volume = v } in
        if leb max_open_files fd
        then (u32_max, s)
        else if not f.used || not f.dirty
        then (0, s)
        else if not done
        then (u32_max, s')
        else (1, with_file s' fd (record f { dirty = false }))

    unfoldable pub sys_close : ℕ → Sys V K → ℕ × Sys V K
    sys_close fd s =
        let (rc, s') = sys_sync fd s in
        let f = s'.ofiles fd in
        if leb max_open_files fd
        then (u32_max, s)
        else if not (s.ofiles fd).used
        then (u32_max, s)
        else (
          if rc == u32_max then u32_max else 0,
          with_file s' fd (record f { used = false; writable = false; dirty = false }),
        )
