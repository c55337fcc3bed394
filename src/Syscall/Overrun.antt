-- ===== src/Syscall/Overrun.antt =====
-- Reading back what was written, and reading past the end of a file, kernel/syscall.c.
use nova_kernel.Prelude.{
  ℕ, ◌+◌, ◌-◌, ◌<◌, ◌≤◌, ◌≡◌, ◌^◌, ap, ap₂, ◌∙◌, true, false, arith, leb, ltb, ◌==◌, if◌then◌else◌,
  none, some, min, subst,
}
use nova_kernel.Prelude.Words.{sub32}
use nova_kernel.Syscall.Files.{
  Sys, OpenFile, user_range_ok, ofile_cap, max_open_files, bytes_at, sys_write_file, sys_read,
  sys_lseek,
}
use nova_kernel.Syscall.Range.{user_range_ok_iff}
use nova_kernel.Syscall.Table.{FileOk}
use nova_kernel.Syscall.Transfer.{Stored, sys_read_lem, sys_write_file_lem, sys_lseek_set}

module _ {V K : Type 0} where
  read_back :
      (s s1 : Sys V K) (fd buf to len : ℕ)
      → FileOk fd (s.ofiles fd)
      → fd < max_open_files
      → (s.ofiles fd).used ≡ true
      → user_range_ok to len ≡ true
      → (s.ofiles fd).pos + len ≤ ofile_cap
      → Stored s s1 fd buf len
      → (s3 : Sys V K) × (sys_read fd to len (sys_lseek fd (s.ofiles fd).pos 0 s1).1
          ≡ some (len, s3))
        × (bytes_at s3.memory to len ≡ bytes_at s.memory buf len)
  read_back s s1 fd buf to len ok lt used range fits st =
      let p = (s.ofiles fd).pos in
      let (_, file, mem) = sys_lseek_set s1 fd p lt (st.used ∙ used) (omega arith) in
      let s2 = (sys_lseek fd p 0 s1).1 in
      let size : (s2.ofiles fd).size ≡ (s1.ofiles fd).size = ap (λ (f : OpenFile). f.size) file in
      let pos : (s2.ofiles fd).pos ≡ p = ap (λ (f : OpenFile). f.pos) file in
      let used2 : (s2.ofiles fd).used ≡ true =
        ap (λ (f : OpenFile). f.used) file ∙ st.used ∙ used in
      let content : (s2.ofiles fd).content ≡ (s1.ofiles fd).content =
        ap (λ (f : OpenFile). f.content) file in
      let grown = st.size in
      let end = st.pos in
      let size_le : (s2.ofiles fd).size ≤ ofile_cap = ground (arith, ok.size, ok.pos) in
      let ok2 : FileOk fd (s2.ofiles fd) = record {
        size = size_le;
        pos = omega arith;
        file = ground arith;
      } in
      let before : (s2.ofiles fd).pos ≤ (s2.ofiles fd).size = ground arith in
      let n : min len ((s2.ofiles fd).size - (s2.ofiles fd).pos) ≡ len = ground arith in
      let (s3, run, d) = sys_read_lem s2 fd to len ok2 lt used2 before range in
      (
        s3,
        run ∙ ap (λ k. some (k, s3)) n,
        subst (λ k. bytes_at s3.memory to k ≡ bytes_at (s2.ofiles fd).content (s2.ofiles fd).pos k)
              n d.bytes
            ∙ ap₂ (λ c k. bytes_at c k len) content pos
            ∙ st.bytes,
      )

  -- Bytes that are written to an open file and fit into it come back, in order, when the position
  -- is set back and as many bytes are read, whatever part of the user window they are read into.
  pub sys_read-write :
      (s : Sys V K) (fd buf to len : ℕ)
      → FileOk fd (s.ofiles fd)
      → fd < max_open_files
      → (s.ofiles fd).used ≡ true
      → (s.ofiles fd).writable ≡ true
      → user_range_ok buf len ≡ true
      → user_range_ok to len ≡ true
      → (s.ofiles fd).pos + len ≤ ofile_cap
      → (s1 : Sys V K) × (s3 : Sys V K) × (sys_write_file fd buf len s ≡ some (len, s1))
        × (sys_read fd to len (sys_lseek fd (s.ofiles fd).pos 0 s1).1 ≡ some (len, s3))
        × (bytes_at s3.memory to len ≡ bytes_at s.memory buf len)
  sys_read-write s fd buf to len ok lt used writable rb rt fits =
      let n : min len (ofile_cap - (s.ofiles fd).pos) ≡ len = omega arith in
      let (s1, run, st) = sys_write_file_lem s fd buf len ok lt used writable rb in
      let st' : Stored s s1 fd buf len = subst (Stored s s1 fd buf) n st in
      let (s3, back, same) = read_back s s1 fd buf to len ok lt used rt fits st' in
      (s1, s3, run ∙ ap (λ k. some (k, s1)) n, back, same)

  -- A file whose position has been moved behind its size, which `lseek` allows, is read beyond its
  -- end: the bytes left wrap to almost 2^32, so nothing stops the copy at the end of the buffer.
  -- Every read that is long enough to pass the end of the buffer leaves `f->data`.
  pub sys_read_overrun :
      (s : Sys V K) (fd buf len : ℕ)
      → fd < max_open_files
      → (s.ofiles fd).used ≡ true
      → (s.ofiles fd).size < (s.ofiles fd).pos
      → (s.ofiles fd).pos ≤ ofile_cap
      → user_range_ok buf len ≡ true
      → buf < 2 ^ 32
      → len < 2 ^ 32
      → ofile_cap < (s.ofiles fd).pos + len
      → sys_read fd buf len s ≡ none
  unfolding sys_read
  sys_read_overrun s fd buf len lt used past cap range hb hl over =
      let f = s.ofiles fd in
      let small = (user_range_ok_iff buf len hb hl).0 range in
      let big : leb max_open_files fd ≡ false = ground arith in
      let n : (if ltb (sub32 f.size f.pos) len then sub32 f.size f.pos else len) ≡ len =
        ground arith in
      let out : ltb ofile_cap (f.pos + len) ≡ true = ground arith in
      let some_bytes : (len == 0) ≡ false = ground arith in
      rw (big, used, range, n, out, some_bytes)
