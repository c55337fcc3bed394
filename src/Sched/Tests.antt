-- ===== src/Sched/Tests.antt =====
-- Runs and witnesses of the scheduler, on services that hand out fresh addresses.
use nova_kernel.Prelude.{
  ℕ, ◌+◌, ◌%◌, ◌<◌, ◌≤◌, ◌≡◌, refl, true, false, arith, ◌==◌, if◌then◌else◌, ◌⊎◌, [], ◌∷◌,
}
use nova_kernel.Sched.{
  Task, Sched, Services, no_task, sched_init, sched_adopt_current, sched_enter_irq, sched_tick,
  sched_exit_current, leave_slot, alloc_slot, slot_from,
}
use nova_kernel.Sched.Create.{
  create_at, new_task, alloc_irq_stack, task_setup_stack, task_create, task_create_user,
  task_fork_user,
}
use nova_kernel.Sched.Switch.{Valid, Next, Resumed, sched_tick-Resumed}
use nova_kernel.Sched.Exit.{Left, sched_exit_current-Left}
use nova_kernel.Sched.Fork.{Undisturbed, Child, new_tasks-Undisturbed, task_fork_user-Child}
use nova_kernel.Sched.Reach.{boot, step, tick, enter_irq, create, Reach-Valid}

abbrev bump : Services ℕ
bump = record {
  kmalloc = λ n e. (e, e + n);
  kfree = λ a e. e;
  paging_fork_addr_space = λ a e. (e, e + 0x1000);
  paging_destroy_addr_space = λ loaded a e. e + 1;
}

-- Two tasks: the boot thread runs with its slice used up, and a user task waits.
abbrev boot_task : Task
boot_task = record no_task { pid = 1; state = true; esp = 0x8000 }

abbrev user_task : Task
user_task = record no_task {
  pid = 2;
  state = true;
  is_user = true;
  esp = 0x9F00;
  irq_stack_top = 0xA000;
  cr3 = 0x50000;
  slice_left = 5;
}

abbrev two_tasks : Sched ℕ
two_tasks = record {
  tasks = λ i. if i == 0 then boot_task else if i == 1 then user_task else no_task;
  task_count = 2;
  current = 0;
  next_pid = 3;
  sched_ready = true;
  sched_current_frame = 0x7F00;
  zombie_cr3 = 0;
  cpu_cr3 = 0x9000;
  cpu_esp0 = 0;
  cpu_esp = 0x7F00;
  halted = false;
  memory = λ a. a;
  services = 0x30000;
}

two_tasks-Valid : Valid two_tasks
two_tasks-Valid = record {
  here = omega arith;
  small = omega arith;
  live = refl;
  beyond = λ i h. ground arith;
  space = refl;
}

sched_tick-Resumed_example :
    (d : ℕ) × Next two_tasks 1 d
    × Resumed ((two_tasks.current + d) % 2) two_tasks (sched_tick bump two_tasks)
sched_tick-Resumed_example =
    sched_tick-Resumed bump two_tasks two_tasks-Valid refl (omega arith) (omega arith) refl

sched_exit_current-Left_example :
    ((d : ℕ) × Next (leave_slot two_tasks) 1 d
      × Left bump ((two_tasks.current + d) % 2) two_tasks (sched_exit_current bump two_tasks))
    ⊎ (((e : ℕ)
          → 1 ≤ e
          → e < 2
          → ((leave_slot two_tasks).tasks ((two_tasks.current + e) % 2)).state ≡ false)
        × ((sched_exit_current bump two_tasks).halted ≡ true))
sched_exit_current-Left_example = sched_exit_current-Left bump two_tasks two_tasks-Valid refl

new_tasks-Undisturbed_example :
    Undisturbed two_tasks (task_create bump (b'a' ∷ []) 0x1000 two_tasks).1
    × Undisturbed two_tasks (task_create_user bump (b'a' ∷ []) 0x200000 0x60000 two_tasks).1
    × Undisturbed two_tasks (task_fork_user bump (b'a' ∷ []) 0x9F00 0x60000 two_tasks).1
new_tasks-Undisturbed_example =
    new_tasks-Undisturbed bump (b'a' ∷ []) 0x1000 0x200000 0x9F00 0x60000 two_tasks two_tasks-Valid

task_fork_user-Child_example :
    ((task_fork_user bump (b'a' ∷ []) 0x9F00 0x50000 two_tasks).0 ≡ 0)
    ⊎ ((slot : ℕ) × Child bump
          (b'a' ∷ [])
          0x9F00
          0x50000
          two_tasks
          (task_fork_user bump (b'a' ∷ []) 0x9F00 0x50000 two_tasks).1
          slot)
task_fork_user-Child_example =
    task_fork_user-Child bump (b'a' ∷ []) 0x9F00 0x50000 two_tasks two_tasks-Valid

abbrev booted : Sched ℕ
booted = (sched_adopt_current (b'k' ∷ []) (sched_init two_tasks)).1

abbrev after_tick : Sched ℕ
after_tick = sched_tick bump (sched_enter_irq 0x7F00 (task_create bump (b'a' ∷ []) 0x1000 booted).1)

booted_running : booted.halted ≡ false
unfolding sched_adopt_current sched_init
booted_running = refl

created_running : (task_create bump (b'a' ∷ []) 0x1000 booted).1.halted ≡ false
unfolding sched_adopt_current sched_init task_create alloc_slot slot_from create_at new_task
    alloc_irq_stack task_setup_stack
created_running = refl

entered_running :
    (sched_enter_irq 0x7F00 (task_create bump (b'a' ∷ []) 0x1000 booted).1).halted ≡ false
unfolding sched_enter_irq sched_adopt_current sched_init task_create alloc_slot slot_from create_at
    new_task alloc_irq_stack task_setup_stack
entered_running = refl

Reach-Valid_example : Valid after_tick ⊎ (after_tick.halted ≡ true)
Reach-Valid_example = Reach-Valid bump after_tick (
    step
      (step (step (boot (b'k' ∷ []) two_tasks refl refl) (create (b'a' ∷ []) 0x1000 booted_running))
        (enter_irq 0x7F00 created_running))
      (tick entered_running))
