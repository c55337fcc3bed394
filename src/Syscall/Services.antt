-- ===== src/Syscall/Services.antt =====
-- What kernel/syscall.c uses of kernel/fat.c, kernel/sched.c and kernel/timer.c.
use nova_kernel.Prelude.{ℕ, ◌≤◌, Bool, List, Option}

-- A name is the list of its bytes, without the NUL. A buffer is a function from the index.
pub record Fat (V : Type 0) : Type 0 where
  -- `fat_read`: its result, what it leaves in `size` (0 before the call) and in the buffer
  pub read : V → List ℕ → ℕ → (ℕ → ℕ) → Bool × ℕ × (ℕ → ℕ)
  pub write : V → List ℕ → (ℕ → ℕ) → ℕ → Bool × V
  pub delete : V → List ℕ → Bool × V
  pub stat : V → List ℕ → Option ℕ
  pub read_le : (v : V) (name : List ℕ) (max : ℕ) (out : ℕ → ℕ) → (read v name max out).1 ≤ max

pub record Sched (K : Type 0) : Type 0 where
  pub current_pid : K → ℕ
  -- `sched_current_task()->flags == TASK_USER`
  pub is_user : K → Bool
  -- `sched_current_task()->slice_left = n`
  pub set_slice : ℕ → K → K
  -- `task_fork_user` of the current task, at the address of the live frame
  pub fork : ℕ → K → ℕ × K
  -- `sched_exit_current`, which switches away
  pub exit_current : K → K
  pub ticks : K → ℕ
