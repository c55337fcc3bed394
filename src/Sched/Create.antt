-- ===== src/Sched/Create.antt =====
-- The operations of kernel/sched.c that make a task.
use nova_kernel.Prelude.{
  ℕ, ◌+◌, ◌-◌, Bool, true, false, not, ◌&&◌, ltb, leb, ◌==◌, if◌then◌else◌, update, List, take,
}
use nova_kernel.Prelude.Words.{add32}
use nova_kernel.Sched.{
  Sched, Services, no_task, set_task, alloc_slot, push_all, kernel_frame, user_frame, max_tasks,
  task_stack, irq_stack, frame_bytes,
}

-- memcpy of `n` bytes, a word at a time
abbrev pub copy_words : ℕ → ℕ → ℕ → (ℕ → ℕ) → ℕ → ℕ
copy_words n to from m a = if leb to a && ltb a (to + n) then m (from + (a - to)) else m a

-- memset of `n` bytes with a word
abbrev pub fill_words : ℕ → ℕ → ℕ → (ℕ → ℕ) → ℕ → ℕ
fill_words n to w m a = if leb to a && ltb a (to + n) then w else m a

module _ {E : Type 0} (sv : Services E) where
  -- a cleared slot with the next pid
  unfoldable pub new_task : Bool → ℕ → Sched E → Sched E
  new_task is_user slot s =
      let s' =
        set_task slot (record no_task { pid = s.next_pid; state = true; is_user = is_user }) s in
      record s' { next_pid = add32 s.next_pid 1 }

  -- the failed creation
  abbrev pub drop_task : ℕ → Sched E → Sched E
  drop_task slot s = set_task slot (record (s.tasks slot) { state = false }) s

  abbrev pub with_services : Sched E → E → Sched E
  with_services s e = record s { services = e }

  unfoldable pub alloc_irq_stack : ℕ → Sched E → Bool × Sched E
  alloc_irq_stack slot s =
      let t = s.tasks slot in
      let (base, e) = sv.kmalloc irq_stack s.services in
      let s' = with_services s e in
      if not (t.irq_stack_top == 0)
      then (true, s)
      else if base == 0
      then (false, s')
      else (true, set_task slot (record t { irq_stack_top = add32 base irq_stack }) s')

  unfoldable pub task_setup_stack : ℕ → ℕ → Sched E → Sched E
  task_setup_stack slot fn s =
      let t = s.tasks slot in
      let (sp, m) = push_all (kernel_frame fn) (add32 t.stack_bottom task_stack) s.memory in
      record (set_task slot (record t { esp = sp }) s) { memory = m }

  -- Without memory for the frame, the stack pointer stays as it is.
  unfoldable pub task_setup_user_stack : ℕ → ℕ → Sched E → Sched E
  task_setup_user_stack slot entry s =
      let t = s.tasks slot in
      let (area, e) = sv.kmalloc 0x1000 s.services in
      let (sp, m) = push_all (user_frame entry) (add32 area 0x1000) s.memory in
      let s' = with_services s e in
      if area == 0 then s' else record (set_task slot (record t { esp = sp }) s') { memory = m }

  -- `task_create` in the slot that it has found
  unfoldable pub create_at : ℕ → List ℕ → ℕ → Sched E → ℕ × Sched E
  create_at slot name fn s =
      let s1 = new_task false slot s in
      let (stack, e) = sv.kmalloc task_stack s1.services in
      let s2 =
        with_services (set_task slot (record (s1.tasks slot) { stack_bottom = stack }) s1) e in
      let (done, s3) = alloc_irq_stack slot s2 in
      let t = s3.tasks slot in
      let s4 = set_task slot (record t { name = take 15 name; slice_left = 5 }) s3 in
      let s5 = record s4 { memory = fill_words task_stack stack 0xCCCCCCCC s3.memory } in
      if stack == 0
      then (0, drop_task slot s2)
      else if not done
      then (0, drop_task slot s3)
      else (t.pid, task_setup_stack slot fn s5)

  unfoldable pub task_create : List ℕ → ℕ → Sched E → ℕ × Sched E
  task_create name fn s0 =
      let (slot, s) = alloc_slot s0 in
      if leb max_tasks slot then (0, s) else create_at slot name fn s

  unfoldable pub create_user_at : ℕ → List ℕ → ℕ → ℕ → Sched E → ℕ × Sched E
  create_user_at slot name entry cr3 s =
      let s1 = new_task true slot s in
      let (done, s2) = alloc_irq_stack slot s1 in
      let t = s2.tasks slot in
      let s3 = set_task slot (record t { cr3 = cr3; name = take 15 name; slice_left = 5 }) s2 in
      if not done then (0, drop_task slot s2) else (t.pid, task_setup_user_stack slot entry s3)

  unfoldable pub task_create_user : List ℕ → ℕ → ℕ → Sched E → ℕ × Sched E
  task_create_user name entry cr3 s0 =
      let (slot, s) = alloc_slot s0 in
      if leb max_tasks slot then (0, s) else create_user_at slot name entry cr3 s

  -- The frame of the parent is copied, with 0 in the place of eax.
  abbrev pub child_frame : ℕ → ℕ → (ℕ → ℕ) → ℕ → ℕ
  child_frame copy parent m = update (copy_words frame_bytes copy parent m) (copy + 44) 0

  unfoldable pub fork_at : ℕ → List ℕ → ℕ → ℕ → Sched E → ℕ × Sched E
  fork_at slot name parent_frame parent_cr3 s =
      let (child_cr3, e1) = sv.paging_fork_addr_space parent_cr3 s.services in
      let (copy, e2) = sv.kmalloc frame_bytes e1 in
      let copied = record s {
        services = e2;
        memory = copy_words frame_bytes copy parent_frame s.memory;
      } in
      let s1 = new_task true slot copied in
      let (done, s2) = alloc_irq_stack slot s1 in
      let t = s2.tasks slot in
      let s3 = drop_task slot s2 in
      let s4 =
        set_task slot
          (record t { cr3 = child_cr3; name = take 15 name; slice_left = 5; esp = copy }) s2 in
      if child_cr3 == 0
      then (0, with_services s e1)
      else if copy == 0
      then (0, with_services s (sv.paging_destroy_addr_space s.cpu_cr3 child_cr3 e2))
      else if not done
      then (
        0,
        with_services s3
            (sv.paging_destroy_addr_space s.cpu_cr3 child_cr3 (sv.kfree copy s3.services)),
      )
      else (t.pid, record s4 { memory = child_frame copy parent_frame s.memory })

  unfoldable pub task_fork_user : List ℕ → ℕ → ℕ → Sched E → ℕ × Sched E
  task_fork_user name parent_frame parent_cr3 s0 =
      let (slot, s) = alloc_slot s0 in
      if leb max_tasks slot then (0, s) else fork_at slot name parent_frame parent_cr3 s
