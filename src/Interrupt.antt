-- ===== src/Interrupt.antt =====
-- The dispatch of interrupts, kernel/isr.c and the table of handlers of kernel/idt.c, with the handler of
-- the timer, kernel/timer.c, and the acknowledgement of kernel/irq.c. It joins the scheduler, the
-- heap, the address spaces, the system calls, the keyboard and the mouse.
pub mod Fault
pub mod Irq
mod Tests
use nova_kernel.Prelude.{
  ℕ, ◌+◌, ◌-◌, Bool, true, false, not, ◌&&◌, leb, ltb, ◌==◌, if◌then◌else◌, update, Option, none,
  some, List, [], ◌∷◌,
}
use nova_kernel.Prelude.Words.{add32}
use nova_kernel.Kheap.{Heap, kmalloc, kfree}
use nova_kernel.Paging.{
  Paging, user, paging_cow_fault, paging_fork_addr_space, paging_destroy_addr_space,
}
use nova_kernel.Sched.{
  Sched, Services, current_task, set_task, sched_enter_irq, sched_tick, sched_exit_current,
  sched_current_pid,
}
use nova_kernel.Sched.Create.{task_fork_user}
use nova_kernel.Syscall.Services.{Fat}
use nova_kernel.Syscall.Files.{Sys}
use nova_kernel.Syscall.Dispatch.{Regs, syscall_dispatch}
use nova_kernel.Keyboard.{Keyboard, keyboard_handler}
use nova_kernel.Mouse.{Mouse, mouse_handler}

-- What the scheduler calls works on the heap and the pages.
pub record Env : Type 0 where
  pub heap : Heap
  pub paging : Paging

-- A walk of a heap that goes round has no end; here it allocates and frees nothing.
unfoldable pub env_kmalloc : ℕ → Env → ℕ × Env
env_kmalloc n e = elim (kmalloc n e.heap) [
  | none ↦ (0, e)
  | some (p, h) ↦ (p, record e { heap = h })
]

unfoldable pub env_kfree : ℕ → Env → Env
env_kfree p e = elim (kfree p e.heap) [ none ↦ e | some h ↦ record e { heap = h } ]

abbrev pub env_services : Services Env
env_services = record {
  kmalloc = env_kmalloc;
  kfree = env_kfree;
  paging_fork_addr_space =
      λ cr3 e. let (pd, q) = paging_fork_addr_space cr3 e.paging in (pd, record e { paging = q });
  paging_destroy_addr_space = λ loaded cr3 e. record e {
    paging = paging_destroy_addr_space cr3 (record e.paging { cr3 = loaded });
  };
}

-- The scheduler with the ticks of the timer.
pub record Clocked : Type 0 where
  pub sched : Sched Env
  pub ticks : ℕ

-- What kernel/syscall.c calls of the two.
abbrev pub clocked_services : nova_kernel.Syscall.Services.Sched Clocked
clocked_services = record {
  current_pid = λ k. sched_current_pid k.sched;
  is_user = λ k. (current_task k.sched).is_user;
  set_slice = λ n k. record k {
    sched = set_task k.sched.current (record (current_task k.sched) { slice_left = n }) k.sched;
  };
  fork = λ frame k.
      let t = current_task k.sched in
      let (pid, s) = task_fork_user env_services t.name frame t.cr3 k.sched in
      (pid, record k { sched = s });
  exit_current = λ k. record k { sched = sched_exit_current env_services k.sched };
  ticks = λ k. k.ticks;
}

-- the handlers that the drivers register
pub data Handler : Type 0 where
  on_timer : Handler
  on_keyboard : Handler
  on_mouse : Handler

-- `port` is the byte that a handler reads from port 0x60, and `out` the bytes written to the
-- ports of the interrupt controllers, the last first.
pub record Machine (V : Type 0) : Type 0 where
  pub sys : Sys V Clocked
  pub keys : Keyboard
  pub mouse : Mouse
  pub irq_handlers : ℕ → Option Handler
  pub port : ℕ
  pub out : List (ℕ × ℕ)

-- struct regs, with the address at which it stands, and CR2
pub record Trap : Type 0 where
  pub int_no : ℕ
  pub err_code : ℕ
  pub cr2 : ℕ
  pub regs : Regs

-- How the dispatch ends: it returns to what was interrupted, it switches away from a process that
-- is killed, the kernel panics, or what the machine does is not modelled: a system call without a
-- defined end, or a run of the page tables that goes astray.
pub data Outcome (V : Type 0) : Type 0 where
  returned : Regs → Machine V → Outcome V
  killed : Machine V → Outcome V
  panicked : Machine V → Outcome V
  undefined : Outcome V

abbrev pub sched_of : {V : Type 0} → Machine V → Sched Env
sched_of m = m.sys.kernel.sched

module _ {V : Type 0} where
  abbrev pub with_kernel : Machine V → Clocked → Machine V
  with_kernel m k = record m { sys = record m.sys { kernel = k } }

  abbrev pub with_sched : Machine V → Sched Env → Machine V
  with_sched m s = with_kernel m (record m.sys.kernel { sched = s })

  unfoldable pub register_irq_handler : ℕ → Handler → Machine V → Machine V
  register_irq_handler irq h m =
      if ltb irq 16 then record m { irq_handlers = update m.irq_handlers irq (some h) } else m

  unfoldable pub pic_eoi : ℕ → Machine V → Machine V
  pic_eoi irq m =
      let m' = if leb 8 irq then record m { out = (0xA0, 0x20) ∷ m.out } else m in
      record m' { out = (0x20, 0x20) ∷ m'.out }

  unfoldable pub timer_handler : Machine V → Machine V
  timer_handler m =
      with_kernel m (record {
        ticks = add32 m.sys.kernel.ticks 1;
        sched = sched_tick env_services (sched_of m);
      })

  unfoldable pub run_handler : Option Handler → Machine V → Machine V
  run_handler none m = m
  run_handler (some on_timer) m = timer_handler m
  run_handler (some on_keyboard) m = record m { keys = keyboard_handler m.port m.keys }
  run_handler (some on_mouse) m = record m { mouse = mouse_handler m.port m.mouse }

  -- The fault handler on the pages, where CR3 is that of the processor.
  unfoldable pub resolve : ℕ → ℕ → Machine V → Bool × Machine V
  resolve cr2 err m =
      let s = sched_of m in
      let (done, q) = paging_cow_fault cr2 err (record s.services.paging { cr3 = s.cpu_cr3 }) in
      (done, with_sched m (record s { services = record s.services { paging = q } }))

  -- publish the frame of the interrupt
  abbrev pub entered : Trap → Machine V → Machine V
  entered t m = with_sched m (sched_enter_irq t.regs.frame (sched_of m))

  abbrev pub gone_astray : Machine V → Bool
  gone_astray m = (sched_of m).services.paging.stray

  module _ (fat : Fat V) where
    unfoldable pub on_exception : Trap → Machine V → Outcome V
    on_exception t m =
        let (done, m') = resolve t.cr2 t.err_code m in
        let left = with_sched m' (sched_exit_current env_services (sched_of m')) in
        if t.int_no == 14 && user t.err_code
        then (if gone_astray m'
            then undefined
            else if done
            then returned t.regs m'
            else if gone_astray left
            then undefined
            else killed left)
        else panicked m

    unfoldable pub on_irq : ℕ → Trap → Machine V → Outcome V
    on_irq irq t m =
        let m' = pic_eoi irq (entered t m) in returned t.regs (run_handler (m'.irq_handlers irq) m')

    unfoldable pub on_syscall : Trap → Machine V → Outcome V
    on_syscall t m =
        let m' = entered t m in
        elim (syscall_dispatch fat clocked_services t.regs m'.sys) [
          | none ↦ undefined
          | some (r, sys) ↦
              let after = record m' { sys = sys } in
              if gone_astray after then undefined else returned r after
        ]

    unfoldable pub isr_common_handler : Trap → Machine V → Outcome V
    isr_common_handler t m =
        let n = t.int_no in
        if ltb n 32
        then on_exception t m
        else if leb 32 n && leb n 47
        then on_irq (n - 32) t m
        else if n == 128
        then on_syscall t m
        else returned t.regs m
