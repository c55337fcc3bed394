-- ===== src/Syscall/Dispatch.antt =====
-- `syscall_dispatch` of kernel/syscall.c, on the registers of the caller's frame.
use nova_kernel.Prelude.{
  ℕ, ◌+◌, ◌/◌, ◌%◌, ◌^◌, Bool, not, ◌&&◌, ◌||◌, ltb, ◌==◌, if◌then◌else◌, update, Option, none,
  some,
}
use nova_kernel.Prelude.Words.{u32_max}
use nova_kernel.Syscall.Services.{Fat, Sched}
use nova_kernel.Syscall.Files.{
  Sys, user_mem_end, user_range_ok, local_name, sys_write, sys_open, sys_read, sys_close, sys_lseek,
}

-- The part of `struct regs` that the dispatcher uses, and the address of the frame.
pub record Regs : Type 0 where
  pub eax : ℕ
  pub ebx : ℕ
  pub ecx : ℕ
  pub edx : ℕ
  pub frame : ℕ

abbrev pub answer : Regs → ℕ → Regs
answer r v = record r { eax = v }

-- the guard of `NR_UNLINK` and `NR_STAT`
unfoldable pub bad_name : ℕ → ℕ → Bool
bad_name addr len = not (user_range_ok addr len) || len == 0 || ltb 31 len

-- *(u32*)addr = v
unfoldable pub store32 : (ℕ → ℕ) → ℕ → ℕ → ℕ → ℕ
store32 m addr v =
    let m0 = update m addr (v % 2 ^ 8) in
    let m1 = update m0 (addr + 1) (v / 2 ^ 8 % 2 ^ 8) in
    let m2 = update m1 (addr + 2) (v / 2 ^ 16 % 2 ^ 8) in update m2 (addr + 3) (v / 2 ^ 24 % 2 ^ 8)

module _ {V K : Type 0} (fat : Fat V) (sched : Sched K) where
  unfoldable pub sys_fork : Regs → Sys V K → Regs × Sys V K
  sys_fork r s =
      let (pid, k) = sched.fork r.frame s.kernel in
      if sched.is_user s.kernel
      then (answer r pid, record s { kernel = k })
      else (answer r u32_max, s)

  -- `want ? want : 1` ticks are left of the slice, 1000 at most.
  unfoldable pub sys_sleep : Regs → Sys V K → Regs × Sys V K
  sys_sleep r s =
      let want = if ltb 1000 r.ebx then 1000 else r.ebx in
      (
        answer r 0,
        record s { kernel = sched.set_slice (if not (want == 0) then want else 1) s.kernel },
      )

  unfoldable pub sys_unlink : Regs → Sys V K → Regs × Sys V K
  sys_unlink r s =
      let (done, v) = fat.delete s.volume (local_name s.memory r.ebx r.ecx) in
      if bad_name r.ebx r.ecx
      then (answer r u32_max, s)
      else (answer r (if done then 0 else u32_max), record s { volume = v })

  unfoldable pub sys_stat : Regs → Sys V K → Regs × Sys V K
  sys_stat r s =
      if bad_name r.ebx r.ecx
      then (answer r u32_max, s)
      else elim (fat.stat s.volume (local_name s.memory r.ebx r.ecx)) [
        | none ↦ (answer r u32_max, s)
        | some size ↦ (
          answer r 0,
          if not (r.edx == 0) && user_range_ok r.edx 4
              then record s { memory = store32 s.memory r.edx size }
              else s,
        )
      ]

  abbrev reply : Regs → Option (ℕ × Sys V K) → Option (Regs × Sys V K)
  reply r none = none
  reply r (some (v, s)) = some (answer r v, s)

  unfoldable pub syscall_dispatch : Regs → Sys V K → Option (Regs × Sys V K)
  syscall_dispatch r s =
      let nr = r.eax in
      if nr == 0
      then reply r (sys_write r.ebx r.ecx r.edx s)
      else if nr == 1
      then some (answer r (sched.current_pid s.kernel), s)
      else if nr == 2
      then some (r, record s { kernel = sched.exit_current s.kernel })
      else if nr == 3
      then some (sys_fork r s)
      else if nr == 4
      then reply r (some (sys_open fat r.ebx r.ecx r.edx s))
      else if nr == 5
      then reply r (sys_read r.ebx r.ecx r.edx s)
      else if nr == 6
      then reply r (some (sys_close fat r.ebx s))
      else if nr == 7
      then some (sys_sleep r s)
      else if nr == 9
      then reply r (some (sys_lseek r.ebx r.ecx r.edx s))
      else if nr == 10
      then some (sys_unlink r s)
      else if nr == 11
      then some (sys_stat r s)
      else if nr == 12
      then some (answer r (sched.ticks s.kernel), s)
      else if nr == 8
      then some (answer r (if r.ebx == 0 then user_mem_end else u32_max), s)
      else some (answer r u32_max, s)
