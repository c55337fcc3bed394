-- ===== src/Syscall/Transfer.antt =====
-- Reading and writing open files, kernel/syscall.c.
use nova_kernel.Prelude.{
  ℕ, ◌+◌, ◌-◌, ◌<◌, ◌≤◌, ◌≡◌, ◌^◌, ◌%◌, ◌⊎◌, refl, true, false, arith, leb, ltb, ◌==◌,
  if◌then◌else◌, some, min,
}
use nova_kernel.Prelude.Words.{sub32}
use nova_kernel.Syscall.Files.{
  Sys, user_range_ok, ofile_cap, max_open_files, with_file, copy_bytes, bytes_at, sys_write_file,
  sys_read, sys_lseek, seek_target,
}
use nova_kernel.Syscall.Range.{copy_bytes_lem, bytes_at-copy_bytes}
use nova_kernel.Syscall.Table.{FileOk}

module _ {V K : Type 0} where
  -- what a read of `n` bytes into `buf` must have done
  pub record Delivered (s s' : Sys V K) (fd buf n : ℕ) : Type 0 where
    pub bytes : bytes_at s'.memory buf n ≡ bytes_at (s.ofiles fd).content (s.ofiles fd).pos n
    pub elsewhere : (j : ℕ) → (j < buf) ⊎ (buf + n ≤ j) → s'.memory j ≡ s.memory j
    pub pos : (s'.ofiles fd).pos ≡ (s.ofiles fd).pos + n
    pub size : (s'.ofiles fd).size ≡ (s.ofiles fd).size
    pub content : (s'.ofiles fd).content ≡ (s.ofiles fd).content

  read_state : (s : Sys V K) (fd buf n : ℕ) → Sys V K
  read_state s fd buf n =
      let f = s.ofiles fd in
      with_file (record s { memory = copy_bytes n f.content f.pos s.memory buf }) fd
        (record f { pos = f.pos + n })

  read_state-Delivered : (s : Sys V K) (fd buf n : ℕ) → Delivered s (read_state s fd buf n) fd buf n
  unfolding read_state
  read_state-Delivered s fd buf n =
      let f = s.ofiles fd in
      record {
        bytes = bytes_at-copy_bytes n f.content s.memory f.pos buf;
        elsewhere = λ j away. ground (arith, copy_bytes_lem n f.content s.memory f.pos buf j);
        pos = ground arith;
        size = ground arith;
        content = ground arith;
      }

  -- Where the position of an open file has not passed its size, a read into the user window
  -- succeeds. It returns the smaller of the length and the bytes left, puts exactly those bytes of
  -- the file into the buffer, moves the position behind them, and writes nothing else of memory.
  pub sys_read_lem :
      (s : Sys V K) (fd buf len : ℕ)
      → FileOk fd (s.ofiles fd)
      → fd < max_open_files
      → (s.ofiles fd).used ≡ true
      → (s.ofiles fd).pos ≤ (s.ofiles fd).size
      → user_range_ok buf len ≡ true
      → let n = min len ((s.ofiles fd).size - (s.ofiles fd).pos) in
        (s' : Sys V K) × (sys_read fd buf len s ≡ some (n, s')) × Delivered s s' fd buf n
  unfolding sys_read
  sys_read_lem s fd buf len ok lt used le range =
      let f = s.ofiles fd in
      let n = min len (f.size - f.pos) in
      let big : leb max_open_files fd ≡ false = ground arith in
      let avail : (if ltb (sub32 f.size f.pos) len then sub32 f.size f.pos else len) ≡ n =
        ground arith in
      let within : ltb ofile_cap (f.pos + n) ≡ false = ground arith in
      (
        read_state s fd buf n,
        rw (big, used, range, avail, within) (unfold read_state in rw used),
        read_state-Delivered s fd buf n,
      )

  -- A write to an open file stores at most what fits behind its position.
  pub record Stored (s s' : Sys V K) (fd buf n : ℕ) : Type 0 where
    pub bytes : bytes_at (s'.ofiles fd).content (s.ofiles fd).pos n ≡ bytes_at s.memory buf n
    pub elsewhere :
        (j : ℕ)
        → (j < (s.ofiles fd).pos) ⊎ ((s.ofiles fd).pos + n ≤ j)
        → (s'.ofiles fd).content j ≡ (s.ofiles fd).content j
    pub pos : (s'.ofiles fd).pos ≡ (s.ofiles fd).pos + n
    pub size : (s'.ofiles fd).size ≡ (
        if ltb (s.ofiles fd).size (s'.ofiles fd).pos
        then (s'.ofiles fd).pos
        else (s.ofiles fd).size)
    pub dirty : (s'.ofiles fd).dirty ≡ true
    pub memory : s'.memory ≡ s.memory
    pub used : (s'.ofiles fd).used ≡ (s.ofiles fd).used

  write_state : (s : Sys V K) (fd buf n : ℕ) → Sys V K
  write_state s fd buf n =
      let f = s.ofiles fd in
      with_file s fd (record f {
        content = copy_bytes n s.memory buf f.content f.pos;
        pos = f.pos + n;
        size = if ltb f.size (f.pos + n) then f.pos + n else f.size;
        dirty = true;
      })

  write_state-Stored : (s : Sys V K) (fd buf n : ℕ) → Stored s (write_state s fd buf n) fd buf n
  unfolding write_state
  write_state-Stored s fd buf n =
      let f = s.ofiles fd in
      let here : (fd == fd) ≡ true = ground arith in
      record {
        bytes = rw here (bytes_at-copy_bytes n s.memory f.content buf f.pos);
        elsewhere = λ j away. ground (arith, copy_bytes_lem n s.memory f.content buf f.pos j);
        pos = ground arith;
        size = ground arith;
        dirty = ground arith;
        memory = refl;
        used = ground arith;
      }

  -- A write to an open file that is writable, from the user window, succeeds. It returns the
  -- smaller of the length and the room behind the position, stores exactly those bytes at the
  -- position, moves the position behind them, grows the size where needed, marks the file dirty,
  -- and changes nothing else of the file or of memory.
  pub sys_write_file_lem :
      (s : Sys V K) (fd buf len : ℕ)
      → FileOk fd (s.ofiles fd)
      → fd < max_open_files
      → (s.ofiles fd).used ≡ true
      → (s.ofiles fd).writable ≡ true
      → user_range_ok buf len ≡ true
      → let n = min len (ofile_cap - (s.ofiles fd).pos) in
        (s' : Sys V K) × (sys_write_file fd buf len s ≡ some (n, s')) × Stored s s' fd buf n
  unfolding sys_write_file
  sys_write_file_lem s fd buf len ok lt used writable range =
      let f = s.ofiles fd in
      let n = min len (ofile_cap - f.pos) in
      let big : leb max_open_files fd ≡ false = ground arith in
      let room : (if ltb (sub32 ofile_cap f.pos) len then sub32 ofile_cap f.pos else len) ≡ n =
        ground arith in
      let within : ltb ofile_cap (f.pos + n) ≡ false = ground arith in
      (
        write_state s fd buf n,
        rw (big, used, writable, range, room, within) (unfold write_state in rw (used, writable)),
        write_state-Stored s fd buf n,
      )

  pub sys_lseek_set :
      (s : Sys V K) (fd off : ℕ)
      → fd < max_open_files
      → (s.ofiles fd).used ≡ true
      → off ≤ ofile_cap
      → let s' = (sys_lseek fd off 0 s).1 in
        ((sys_lseek fd off 0 s).0 ≡ off)
        × (s'.ofiles fd ≡ record (s.ofiles fd) { pos = off })
        × (s'.memory ≡ s.memory)
  unfolding sys_lseek seek_target
  sys_lseek_set s fd off lt used small =
      let big : leb max_open_files fd ≡ false = ground arith in
      let mask : off % 2 ^ 32 ≡ off = omega arith in (ground arith, ground arith, ground arith)
