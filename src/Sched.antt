-- ===== src/Sched.antt =====
-- The round-robin scheduler, kernel/sched.c. A switch of the context loads registers of the
-- processor, which are a part of the state: after it the processor runs on the stack pointer of the
-- task that is switched to. Kernel memory is a function from the address of a 32-bit word.
pub mod Create
pub mod Slots
pub mod Switch
pub mod Exit
pub mod Fork
pub mod Reach
pub mod Launch
pub mod Fair
pub mod Tick
mod Tests
use nova_kernel.Prelude.{
  ℕ, zero, suc, ◌+◌, ◌-◌, ◌%◌, ◌<◌, Bool, true, false, not, ◌&&◌, ◌||◌, ltb, leb, ◌==◌,
  if◌then◌else◌, update, List, [], ◌∷◌, take,
}
use nova_kernel.Prelude.Words.{add32}

abbrev pub max_tasks : ℕ
max_tasks = 16

abbrev pub kernel_pd : ℕ
kernel_pd = 0x9000

abbrev pub task_stack : ℕ
task_stack = 0x4000

abbrev pub irq_stack : ℕ
irq_stack = 0x2000

abbrev pub frame_bytes : ℕ
frame_bytes = 0x100

-- `state` is whether the task is ready, `is_user` whether `flags` is TASK_USER; the name has no NUL.
pub record Task : Type 0 where
  pub pid : ℕ
  pub state : Bool
  pub is_user : Bool
  pub esp : ℕ
  pub stack_bottom : ℕ
  pub irq_stack_top : ℕ
  pub cr3 : ℕ
  pub slice_left : ℕ
  pub name : List ℕ

-- What the scheduler calls in kernel/kheap.c and kernel/paging.c, on their state; 0 is a failure. The
-- release of an address space runs under the CR3 that is loaded, its first argument.
pub record Services (E : Type 0) : Type 0 where
  pub kmalloc : ℕ → E → ℕ × E
  pub kfree : ℕ → E → E
  pub paging_fork_addr_space : ℕ → E → ℕ × E
  pub paging_destroy_addr_space : ℕ → ℕ → E → E

-- The static variables; of the processor, CR3, the stack pointer for interrupts (esp0 of the TSS),
-- the stack pointer, and whether it has halted; kernel memory; and the state of the services.
pub record Sched (E : Type 0) : Type 0 where
  pub tasks : ℕ → Task
  pub task_count : ℕ
  pub current : ℕ
  pub next_pid : ℕ
  pub sched_ready : Bool
  pub sched_current_frame : ℕ
  pub zombie_cr3 : ℕ
  pub cpu_cr3 : ℕ
  pub cpu_esp0 : ℕ
  pub cpu_esp : ℕ
  pub halted : Bool
  pub memory : ℕ → ℕ
  pub services : E

-- memset(t, 0, sizeof(*t))
abbrev pub no_task : Task
no_task = record {
  pid = 0;
  state = false;
  is_user = false;
  esp = 0;
  stack_bottom = 0;
  irq_stack_top = 0;
  cr3 = 0;
  slice_left = 0;
  name = [];
}

-- *--sp = w, for each word in turn
unfoldable pub push_all : List ℕ → ℕ → (ℕ → ℕ) → ℕ × (ℕ → ℕ)
push_all [] sp m = (sp, m)
push_all (w ∷ ws) sp m = push_all ws (sp - 4) (update m (sp - 4) w)

abbrev pub kernel_frame : ℕ → List ℕ
kernel_frame fn = 0x202 ∷ 0x08 ∷ fn ∷ 0 ∷ 0 ∷ 0 ∷ 0 ∷ 0 ∷ 0 ∷ 0 ∷ 0 ∷ 0 ∷ 0 ∷ 0 ∷ 0 ∷ 0 ∷ 0 ∷ []

abbrev pub user_frame : ℕ → List ℕ
user_frame entry =
    0x23 ∷ 0x2F0000 ∷ 0x202 ∷ 0x1B ∷ entry ∷ 0 ∷ 0 ∷ 0 ∷ 0 ∷ 0 ∷ 0 ∷ 0 ∷ 0 ∷ 0 ∷ 0 ∷ 0 ∷ 0 ∷ 0 ∷ 0
    ∷ []

module _ {E : Type 0} where
  abbrev pub set_task : ℕ → Task → Sched E → Sched E
  set_task i t s = record s { tasks = update s.tasks i t }

  abbrev pub current_task : Sched E → Task
  current_task s = s.tasks s.current

  unfoldable pub sched_init : Sched E → Sched E
  sched_init s = record s { tasks = λ i. no_task; task_count = 0; current = 0; sched_ready = false }

  unfoldable pub sched_enter_irq : ℕ → Sched E → Sched E
  sched_enter_irq r s =
      let t = current_task s in
      let s' =
        if not s.sched_ready && ltb 0 s.task_count && t.esp == 0
        then set_task s.current (record t { esp = r }) s
        else s in
      record s' { sched_current_frame = r; sched_ready = true }

  -- The other fields of the slot stay as they are.
  unfoldable pub sched_adopt_current : List ℕ → Sched E → ℕ × Sched E
  sched_adopt_current name s =
      let t = record (s.tasks s.task_count) {
        pid = s.next_pid;
        state = true;
        is_user = false;
        stack_bottom = 0;
        cr3 = 0;
        slice_left = 5;
        esp = 0;
        name = take 15 name;
      } in
      let s' = set_task s.task_count t s in
      if leb max_tasks s.task_count then (0, s) else (
        s.next_pid,
        record s' {
          next_pid = add32 s.next_pid 1;
          current = s.task_count;
          task_count = s.task_count + 1;
        },
      )

  -- The loop of `alloc_slot`, with `n` slots left from `i` on.
  unfoldable pub slot_from : ℕ → ℕ → Sched E → ℕ × Sched E
  slot_from zero i s =
      if ltb s.task_count max_tasks
      then (s.task_count, record s { task_count = s.task_count + 1 })
      else (max_tasks, s)
  slot_from (suc n) i s =
      let rest = slot_from n (i + 1) s in if not (s.tasks i).state then (i, s) else rest

  unfoldable pub alloc_slot : Sched E → ℕ × Sched E
  alloc_slot s = slot_from s.task_count 0 s

  -- save the frame, load CR3, esp0 and the stack pointer
  unfoldable pub switch_to : Services E → ℕ → ℕ → Sched E → Sched E
  switch_to sv frame next s =
      let old = s.current in
      let t = s.tasks next in
      let space = if t.is_user then t.cr3 else kernel_pd in
      let saved = update s.tasks old (record (s.tasks old) { esp = frame }) in
      if leb max_tasks next || leb max_tasks old || not t.state then s else record s {
        tasks = saved;
        cpu_cr3 = if (s.tasks old).is_user || t.is_user then space else s.cpu_cr3;
        cpu_esp0 = if not (t.irq_stack_top == 0) then t.irq_stack_top else s.cpu_esp0;
        current = next;
        cpu_esp = (saved next).esp;
      }

  unfoldable pub sched_yield : Services E → Sched E → Sched E
  sched_yield sv s =
      let next = (s.current + 1) % s.task_count in
      let frame = s.sched_current_frame in
      let t = current_task s in
      let s' = if t.esp == 0 then set_task s.current (record t { esp = frame }) s else s in
      if ltb s.task_count 2
      then s
      else if not (s.tasks next).state
      then s
      else if frame == 0
      then s
      else switch_to sv frame next s'

  -- The slice of the current task, then that of the next.
  unfoldable pub renew : ℕ → Sched E → Sched E
  renew next s =
      let t = current_task s in
      let s1 = set_task s.current (record t { esp = s.sched_current_frame; slice_left = 5 }) s in
      set_task next (record (s1.tasks next) { slice_left = 5 }) s1

  -- The loop of `sched_tick`, with `n` rounds left from `i` on.
  unfoldable pub tick_from : Services E → ℕ → ℕ → Sched E → Sched E
  tick_from sv zero i s = s
  tick_from sv (suc n) i s =
      let next = (s.current + i) % s.task_count in
      let rest = tick_from sv n (i + 1) s in
      if leb s.task_count next
      then rest
      else if (s.tasks next).state
      then (if s.sched_current_frame == 0
          then s
          else switch_to sv s.sched_current_frame next (renew next s))
      else rest

  unfoldable pub sched_tick : Services E → Sched E → Sched E
  sched_tick sv s =
      let t = current_task s in
      if ltb s.task_count 2
      then s
      else if leb s.task_count s.current
      then s
      else if not s.sched_ready
      then s
      else if ltb 0 t.slice_left
      then set_task s.current (record t { slice_left = t.slice_left - 1 }) s
      else tick_from sv s.task_count 1 s

  unfoldable pub sched_current_pid : Sched E → ℕ
  sched_current_pid s = (current_task s).pid

  -- The loop of `sched_task_count`.
  unfoldable pub count_ready : ℕ → Sched E → ℕ
  count_ready zero s = 0
  count_ready (suc n) s = if (s.tasks n).state then count_ready n s + 1 else count_ready n s

  unfoldable pub sched_task_count : Sched E → ℕ
  sched_task_count s = count_ready s.task_count s

  unfoldable pub reap_zombies : Services E → Sched E → Sched E
  reap_zombies sv s =
      if not (s.zombie_cr3 == 0)
      then record s {
        services = sv.paging_destroy_addr_space s.cpu_cr3 s.zombie_cr3 s.services;
        zombie_cr3 = 0;
      }
      else s

  -- jump into the task of a slot, from the exit of another
  unfoldable pub adopt_slot : Services E → ℕ → Sched E → Sched E
  adopt_slot sv next s =
      let t = record (s.tasks next) { slice_left = 5 } in
      let s1 = set_task next t s in
      let s2 = record s1 {
        cpu_cr3 = if t.is_user then t.cr3 else kernel_pd;
        cpu_esp0 = if not (t.irq_stack_top == 0) then t.irq_stack_top else s.cpu_esp0;
      } in
      record (reap_zombies sv s2) { current = next; cpu_esp = t.esp }

  -- The loop of `sched_exit_current`, with `n` rounds left from `i` on; past it the processor halts.
  unfoldable pub exit_from : Services E → ℕ → ℕ → Sched E → Sched E
  exit_from sv zero i s = record s { halted = true }
  exit_from sv (suc n) i s =
      let next = (s.current + i) % s.task_count in
      let rest = exit_from sv n (i + 1) s in
      if next == s.current
      then rest
      else if (s.tasks next).state
      then adopt_slot sv next s
      else rest

  -- park the address space, and leave the slot
  unfoldable pub leave_slot : Sched E → Sched E
  leave_slot s =
      let t = current_task s in
      let parks = t.is_user && not (t.cr3 == 0) in
      let s' =
        set_task s.current (record t { cr3 = if parks then 0 else t.cr3; state = false }) s in
      record s' { zombie_cr3 = if parks then t.cr3 else s.zombie_cr3 }

  unfoldable pub sched_exit_current : Services E → Sched E → Sched E
  sched_exit_current sv s = exit_from sv (s.task_count - 1) 1 (leave_slot s)
