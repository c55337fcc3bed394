-- ===== src/Interrupt/Fault.antt =====
-- Exceptions, kernel/isr.c: what a page fault of a user process can do.
use nova_kernel.Prelude.{
  ℕ, ◌+◌, ◌%◌, ◌<◌, ◌≤◌, ◌≡◌, refl, true, false, ◌==◌, ltb, if◌then◌else◌, arith, ◌⊎◌, ◌∙◌,
}
use nova_kernel.Paging.{user}
use nova_kernel.Sched.{Sched, sched_exit_current, leave_slot}
use nova_kernel.Sched.Switch.{Next}
use nova_kernel.Sched.Exit.{Left}
use nova_kernel.Syscall.Services.{Fat}
use nova_kernel.Interrupt.{
  Env, Machine, Trap, returned, killed, undefined, env_services, sched_of, with_sched, gone_astray,
  resolve, on_exception, isr_common_handler,
}

-- The scheduler goes on without the task that ran: with the next live one, or halted if there is none.
pub Removed : Sched Env → Sched Env → Type 0
Removed s s' =
    ((d : ℕ) × Next (leave_slot s) 1 d × Left env_services ((s.current + d) % s.task_count) s s')
    ⊎ (((e : ℕ)
          → 1 ≤ e
          → e < s.task_count
          → ((leave_slot s).tasks ((s.current + e) % s.task_count)).state ≡ false)
        × (s'.halted ≡ true))

-- A fault that is resolved touches pages alone.
pub record SameTasks {V : Type 0} (m m' : Machine V) : Type 0 where
  pub tasks : (i : ℕ) → (sched_of m').tasks i ≡ (sched_of m).tasks i
  pub current : (sched_of m').current ≡ (sched_of m).current
  pub space : (sched_of m').cpu_cr3 ≡ (sched_of m).cpu_cr3

module _ {V : Type 0} where
  module _ (fat : Fat V) (t : Trap) (m : Machine V) where
    exception : t.int_no < 32 → isr_common_handler fat t m ≡ on_exception fat t m
    unfolding isr_common_handler
    exception lt = let a : ltb t.int_no 32 ≡ true = ground arith in rw (a) refl

    pub fault_cases :
        t.int_no ≡ 14
        → user t.err_code ≡ true
        → isr_common_handler fat t m ≡ (
            let r = resolve t.cr2 t.err_code m in
            let left = with_sched r.1 (sched_exit_current env_services (sched_of r.1)) in
            if gone_astray r.1
            then undefined
            else if r.0
            then returned t.regs r.1
            else if gone_astray left
            then undefined
            else killed left)
    unfolding on_exception
    fault_cases n u =
        let pf : t.int_no == 14 ≡ true = ground arith in exception (omega arith) ∙ (rw (pf, u) refl)
