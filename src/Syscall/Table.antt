-- ===== src/Syscall/Table.antt =====
-- The table of open files of kernel/syscall.c: its invariant, and which descriptor `open` gives.
use nova_kernel.Prelude.{
  Option-cases, subst, ℕ, zero, suc, ◌+◌, ◌<◌, ◌≤◌, ◌≡◌, ◌⊎◌, refl, true, false, arith, ◌==◌,
  Bool-cases, inl, inr, List, Option, none, some,
}
use nova_kernel.Syscall.Services.{Fat, Sched}
use nova_kernel.Syscall.Files.{
  local_name, max_open_files, open_at, Sys, OpenFile, ofile_cap, fd_from, alloc_fd, sys_write_file,
  sys_write, sys_read, sys_lseek, seek_target, sys_open, sys_sync, sys_close,
}
use nova_kernel.Syscall.Dispatch.{Regs, sys_fork, sys_sleep, sys_unlink, sys_stat, syscall_dispatch}

-- Positions and sizes lie inside the buffer of the file, and a descriptor of the console names
-- no file.
pub record FileOk (fd : ℕ) (f : OpenFile) : Type 0 where
  pub size : f.size ≤ ofile_cap
  pub pos : f.pos ≤ ofile_cap
  pub file : (f.used ≡ false) ⊎ (3 ≤ fd)

abbrev pub TableOk : (ℕ → OpenFile) → Type 0
TableOk t = (fd : ℕ) → FileOk fd (t fd)

seek_target-le : (base off : ℕ) → seek_target base off ≤ ofile_cap
unfolding seek_target
seek_target-le base off = ground arith

module _ {V K : Type 0} where
  sys_lseek-TableOk :
      (fd off whence : ℕ) (s : Sys V K)
      → TableOk s.ofiles
      → TableOk (sys_lseek fd off whence s).1.ofiles
  unfolding sys_lseek
  sys_lseek-TableOk fd off whence s v i =
      let f = s.ofiles fd in
      ground (arith, v i, seek_target-le 0 off, seek_target-le f.pos off, seek_target-le f.size off)

  sys_write_file-TableOk :
      (fd buf len : ℕ) (s : Sys V K) (n : ℕ) (s' : Sys V K)
      → TableOk s.ofiles
      → sys_write_file fd buf len s ≡ some (n, s')
      → TableOk s'.ofiles
  unfolding sys_write_file
  sys_write_file-TableOk fd buf len s n s' v e i = ground (arith, v i)

  sys_write-TableOk :
      (fd buf len : ℕ) (s : Sys V K) (n : ℕ) (s' : Sys V K)
      → TableOk s.ofiles
      → sys_write fd buf len s ≡ some (n, s')
      → TableOk s'.ofiles
  unfolding sys_write
  sys_write-TableOk fd buf len s n s' v e i = ground (
    arith,
    v i,
    λ (h : sys_write_file fd buf len s ≡ some (n, s')).
        sys_write_file-TableOk fd buf len s n s' v h i,
  )

  sys_read-TableOk :
      (fd buf len : ℕ) (s : Sys V K) (n : ℕ) (s' : Sys V K)
      → TableOk s.ofiles
      → sys_read fd buf len s ≡ some (n, s')
      → TableOk s'.ofiles
  unfolding sys_read
  sys_read-TableOk fd buf len s n s' v e i = ground (arith, v i, v fd)

  fd_from_lem :
      (n i : ℕ) (s : Sys V K) (fd : ℕ)
      → fd_from n i s ≡ some fd
      → (i ≤ fd)
        × (fd < i + n)
        × ((s.ofiles fd).used ≡ false)
        × ((j : ℕ) → i ≤ j → j < fd → (s.ofiles j).used ≡ true)
  unfolding fd_from
  fd_from_lem zero i s fd e = absurd (cc)
  fd_from_lem (suc n) i s fd e = elim (Bool-cases (s.ofiles i).used) [
    | inl busy ↦
        let (lo, hi, free, all) = fd_from_lem n (i + 1) s fd (rw busy at e) in
        (
          omega arith,
          omega arith,
          free,
          λ j a b. elim (Bool-cases (i == j)) [
            | inl same ↦
                let q : i ≡ j = ground arith in subst (λ k. (s.ofiles k).used ≡ true) q busy
            | inr away ↦ all j (ground arith) b
          ],
        )
    | inr unused ↦
        let q : i ≡ fd = first (rw unused at e) in
        (
          omega arith,
          omega arith,
          subst (λ k. (s.ofiles k).used ≡ false) q unused,
          λ j a b. absurd (omega arith),
        )
  ]
    where
      first : {x : ℕ} → some i ≡ some x → i ≡ x
      first h = cc

  -- `alloc_fd` gives the lowest descriptor from 3 on that no file uses.
  pub alloc_fd_lem :
      (s : Sys V K) (fd : ℕ)
      → alloc_fd s ≡ some fd
      → (3 ≤ fd)
        × (fd < max_open_files)
        × ((s.ofiles fd).used ≡ false)
        × ((j : ℕ) → 3 ≤ j → j < fd → (s.ofiles j).used ≡ true)
  unfolding alloc_fd
  alloc_fd_lem s fd e = fd_from_lem 5 3 s fd e

  module _ (fat : Fat V) where
    open_at-TableOk :
        (fd : ℕ) (path : List ℕ) (flags : ℕ) (s : Sys V K)
        → TableOk s.ofiles
        → 3 ≤ fd
        → TableOk (open_at fat fd path flags s).1.ofiles
    unfolding open_at
    open_at-TableOk fd path flags s v low i =
        ground (arith, v i, fat.read_le s.volume path ofile_cap (s.ofiles fd).content)

    sys_open-TableOk :
        (name len flags : ℕ) (s : Sys V K)
        → TableOk s.ofiles
        → TableOk (sys_open fat name len flags s).1.ofiles
    unfolding sys_open
    sys_open-TableOk name len flags s v i = elim (Option-cases (alloc_fd s)) [
      | inl none_left ↦ ground (arith, v i)
      | inr (fd, free) ↦ ground (
        arith,
        v i,
        open_at-TableOk fd (local_name s.memory name len) flags s v (alloc_fd_lem s fd free).0 i,
      )
    ]

    sys_sync-TableOk :
        (fd : ℕ) (s : Sys V K) → TableOk s.ofiles → TableOk (sys_sync fat fd s).1.ofiles
    unfolding sys_sync
    sys_sync-TableOk fd s v i = ground (arith, v i)

    sys_close-TableOk :
        (fd : ℕ) (s : Sys V K) → TableOk s.ofiles → TableOk (sys_close fat fd s).1.ofiles
    unfolding sys_close
    sys_close-TableOk fd s v i = ground (arith, v i, sys_sync-TableOk fd s v i)

  -- the outcome of a call is an access out of bounds, or an entry that is in order
  abbrev Keeps : ℕ → Option (ℕ × Sys V K) → Type 0
  Keeps i out =
      (out ≡ none) ⊎ ((n : ℕ) × (s' : Sys V K) × (out ≡ some (n, s')) × FileOk i (s'.ofiles i))

  keeps :
      (out : Option (ℕ × Sys V K)) (i : ℕ)
      → ((n : ℕ) (s' : Sys V K) → out ≡ some (n, s') → FileOk i (s'.ofiles i))
      → Keeps i out
  keeps none i h = inl refl
  keeps (some (n, s)) i h = inr (n, s, refl, h n s refl)

  module _ (fat : Fat V) (sched : Sched K) where
    sys_fork-ofiles : (r : Regs) (s : Sys V K) → (sys_fork fat sched r s).1.ofiles ≡ s.ofiles
    unfolding sys_fork
    sys_fork-ofiles r s = ground arith

    sys_unlink-ofiles : (r : Regs) (s : Sys V K) → (sys_unlink fat sched r s).1.ofiles ≡ s.ofiles
    unfolding sys_unlink
    sys_unlink-ofiles r s = ground arith

    sys_stat-ofiles : (r : Regs) (s : Sys V K) → (sys_stat fat sched r s).1.ofiles ≡ s.ofiles
    unfolding sys_stat
    sys_stat-ofiles r s = ground arith

    -- A system call that copies nothing past the end of a file's buffer keeps the table of open files
    -- in order: positions and sizes lie inside the buffers, and the descriptors of the console name no
    -- file. (A call that does copy past it has no result in the model, and is left out here.)
    pub syscall_dispatch-TableOk :
        (r r' : Regs) (s s' : Sys V K)
        → TableOk s.ofiles
        → syscall_dispatch fat sched r s ≡ some (r', s')
        → TableOk s'.ofiles
    unfolding syscall_dispatch sys_sleep
    syscall_dispatch-TableOk r r' s s' v e i = ground (
      arith,
      v i,
      keeps (sys_write r.ebx r.ecx r.edx s) i
          (λ n t h. sys_write-TableOk r.ebx r.ecx r.edx s n t v h i),
      keeps (sys_read r.ebx r.ecx r.edx s) i
          (λ n t h. sys_read-TableOk r.ebx r.ecx r.edx s n t v h i),
      sys_open-TableOk fat r.ebx r.ecx r.edx s v i,
      sys_close-TableOk fat r.ebx s v i,
      sys_lseek-TableOk r.ebx r.ecx r.edx s v i,
      sys_fork-ofiles r s,
      sys_unlink-ofiles r s,
      sys_stat-ofiles r s,
    )
