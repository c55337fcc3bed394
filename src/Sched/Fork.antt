-- ===== src/Sched/Fork.antt =====
-- New tasks, kernel/sched.c: what creating and forking leave of the others, and what a child gets.
use nova_kernel.Prelude.{
  ℕ, ◌+◌, ◌<◌, ◌≤◌, ◌≡◌, ◌≢◌, refl, true, false, arith, leb, ◌==◌, inl, inr, ◌⊎◌, Bool-cases, ◌∙◌,
  sym, subst, ap, ◌||◌, List, take,
}
use nova_kernel.Sched.{Task, Sched, Services, max_tasks, alloc_slot, irq_stack, frame_bytes}
use nova_kernel.Sched.Create.{
  new_task, alloc_irq_stack, create_at, create_user_at, fork_at, task_create, task_create_user,
  task_fork_user, task_setup_stack, task_setup_user_stack,
}
use nova_kernel.Sched.Slots.{Slot, reused, extended, full, alloc_slot-Slot}
use nova_kernel.Sched.Switch.{Valid}

-- A step that leaves the running task and the processor, and every slot but one.
pub record Kept {E : Type 0} (slot : ℕ) (s s' : Sched E) : Type 0 where
  pub others : (i : ℕ) → i ≢ slot → s'.tasks i ≡ s.tasks i
  pub current : s'.current ≡ s.current
  pub task_count : s'.task_count ≡ s.task_count
  pub space : s'.cpu_cr3 ≡ s.cpu_cr3

module _ {E : Type 0} where
  Kept-Valid :
      {slot : ℕ} {s s' : Sched E}
      → Kept slot s s'
      → slot < s.task_count
      → slot ≢ s.current
      → Valid s
      → Valid s'
  Kept-Valid {slot = slot} {s = s} {s' = s'} k lt ne v =
      let same : s'.tasks s.current ≡ s.tasks s.current = k.others s.current (λ e. ne (sym e)) in
      record {
        here = rw (k.current, k.task_count) v.here;
        small = rw (k.task_count) v.small;
        live = rw (k.current, same) v.live;
        beyond = λ i h.
            let past : s.task_count ≤ i = rw (← k.task_count) h in
            ap (λ (t : Task). t.state) (k.others i (omega arith)) ∙ v.beyond i past;
        space = rw (k.current, same) (k.space ∙ v.space);
      }

  -- What is known of the slot that has been found.
  pub record Found (s : Sched E) (r : ℕ × Sched E) : Type 0 where
    pub tasks : (i : ℕ) → r.1.tasks i ≡ s.tasks i
    pub current : r.1.current ≡ s.current
    pub dead : r.0 < max_tasks → (s.tasks r.0).state ≡ false
    pub inside : r.0 < max_tasks → r.0 < r.1.task_count
    pub memory : r.1.memory ≡ s.memory
    pub services : r.1.services ≡ s.services
    pub next_pid : r.1.next_pid ≡ s.next_pid
    pub valid : Valid r.1

  pub Slot-Found : (s : Sched E) (r : ℕ × Sched E) → Valid s → Slot s r → Found s r
  Slot-Found s r v (reused i lt off before) = record {
    tasks = λ i. refl;
    current = refl;
    dead = λ _. off;
    inside = λ _. lt;
    memory = refl;
    services = refl;
    next_pid = refl;
    valid = v;
  }
  Slot-Found s r v (extended room all) = record {
    tasks = λ i. refl;
    current = refl;
    dead = λ _. v.beyond s.task_count (omega arith);
    inside = λ _. omega arith;
    memory = refl;
    services = refl;
    next_pid = refl;
    valid = record {
      here = omega (arith, v.here);
      small = omega arith;
      live = v.live;
      beyond = λ i h. v.beyond i (omega arith);
      space = v.space;
    };
  }
  Slot-Found s r v (full many all) = record {
    tasks = λ i. refl;
    current = refl;
    dead = λ lt. absurd (omega arith);
    inside = λ lt. absurd (omega arith);
    memory = refl;
    services = refl;
    next_pid = refl;
    valid = v;
  }

  module _ (sv : Services E) (slot : ℕ) (s : Sched E) where
    create_at-Kept : (name : List ℕ) (fn : ℕ) → Kept slot s (create_at sv slot name fn s).1
    unfolding create_at alloc_irq_stack new_task task_setup_stack
    create_at-Kept name fn = record {
      others = λ i h. ground arith;
      current = ground arith;
      task_count = ground arith;
      space = ground arith;
    }

    create_user_at-Kept :
        (name : List ℕ) (entry cr3 : ℕ) → Kept slot s (create_user_at sv slot name entry cr3 s).1
    unfolding create_user_at alloc_irq_stack new_task task_setup_user_stack
    create_user_at-Kept name entry cr3 = record {
      others = λ i h. ground arith;
      current = ground arith;
      task_count = ground arith;
      space = ground arith;
    }

    fork_at-Kept :
        (name : List ℕ) (frame cr3 : ℕ) → Kept slot s (fork_at sv slot name frame cr3 s).1
    unfolding fork_at alloc_irq_stack new_task
    fork_at-Kept name frame cr3 = record {
      others = λ i h. ground arith;
      current = ground arith;
      task_count = ground arith;
      space = ground arith;
    }

-- The live tasks stay as they are, the running one keeps running, and the table stays valid.
pub record Undisturbed {E : Type 0} (s s' : Sched E) : Type 0 where
  pub live : (i : ℕ) → (s.tasks i).state ≡ true → s'.tasks i ≡ s.tasks i
  pub current : s'.current ≡ s.current
  pub valid : Valid s'

-- What a forked child has: a slot that was dead, the address space and the slice of a new task, and
-- a copy of the parent's frame in which eax is 0. The rest of the memory is as before.
pub record Child {E : Type 0} (sv : Services E) (task_name : List ℕ) (parent_frame parent_cr3 : ℕ)
    (s s' : Sched E) (slot : ℕ) : Type 0 where
  pub was_dead : (s.tasks slot).state ≡ false
  pub state : (s'.tasks slot).state ≡ true
  pub is_user : (s'.tasks slot).is_user ≡ true
  pub pid : (s'.tasks slot).pid ≡ s.next_pid
  pub name : (s'.tasks slot).name ≡ take 15 task_name
  pub cr3 : (s'.tasks slot).cr3 ≡ (sv.paging_fork_addr_space parent_cr3 s.services).0
  pub slice : (s'.tasks slot).slice_left ≡ 5
  pub eax : s'.memory ((s'.tasks slot).esp + 44) ≡ 0
  pub frame :
      (k : ℕ)
      → k < frame_bytes
      → k ≢ 44
      → s'.memory ((s'.tasks slot).esp + k) ≡ s.memory (parent_frame + k)
  pub outside :
      (a : ℕ)
      → (a < (s'.tasks slot).esp) ⊎ ((s'.tasks slot).esp + frame_bytes ≤ a)
      → s'.memory a ≡ s.memory a

module _ {E : Type 0} (sv : Services E) where
  undisturbed :
      {s : Sched E} {r : ℕ × Sched E} (s' : Sched E)
      → Valid s
      → Found s r
      → r.0 < max_tasks
      → Kept r.0 r.1 s'
      → Undisturbed s s'
  undisturbed {s = s} {r = r} s' v f lt k =
      let dead = f.dead lt in
      let ne : r.0 ≢ r.1.current = λ e.
        let live = v.live in
        let off : (s.tasks s.current).state ≡ false =
          subst (λ x. (s.tasks x).state ≡ false) (e ∙ f.current) dead in
        ground arith in
      record {
        live = λ i on.
            k.others i
              (λ e. let off = subst (λ x. (s.tasks x).state ≡ false) (sym e) dead in ground arith)
            ∙ f.tasks i;
        current = k.current ∙ f.current;
        valid = Kept-Valid k (f.inside lt) ne f.valid;
      }

  Found-Undisturbed : {s : Sched E} {r : ℕ × Sched E} → Found s r → Undisturbed s r.1
  Found-Undisturbed f = record { live = λ i on. f.tasks i; current = f.current; valid = f.valid }

  -- In a valid state, creating a kernel task, creating a user task and forking leave every live task
  -- as it is, the running task running, and the state valid, whether they succeed or fail.
  pub new_tasks-Undisturbed :
      (name : List ℕ) (fn entry frame cr3 : ℕ) (s : Sched E)
      → Valid s
      → Undisturbed s (task_create sv name fn s).1
        × Undisturbed s (task_create_user sv name entry cr3 s).1
        × Undisturbed s (task_fork_user sv name frame cr3 s).1
  unfolding task_create task_create_user task_fork_user
  new_tasks-Undisturbed name fn entry frame cr3 s v =
      let f = Slot-Found s (alloc_slot s) v (alloc_slot-Slot s) in
      let (slot, s1) = alloc_slot s in
      elim (Bool-cases (leb max_tasks slot)) [
        | inl none_left ↦
            rw (none_left) (Found-Undisturbed f, Found-Undisturbed f, Found-Undisturbed f)
        | inr room ↦
            let lt : slot < max_tasks = ground arith in
            rw (room) (
              undisturbed _ v f lt (create_at-Kept sv slot s1 name fn),
              undisturbed _ v f lt (create_user_at-Kept sv slot s1 name entry cr3),
              undisturbed _ v f lt (fork_at-Kept sv slot s1 name frame cr3),
            )
      ]

  fork_at-Child :
      (slot : ℕ) (name : List ℕ) (frame cr3 : ℕ) (s : Sched E)
      → (s.tasks slot).state ≡ false
      → ((fork_at sv slot name frame cr3 s).0 ≡ 0)
        ⊎ Child sv name frame cr3 s (fork_at sv slot name frame cr3 s).1 slot
  unfolding fork_at alloc_irq_stack new_task
  fork_at-Child slot name frame cr3 s off =
      let a1 = sv.paging_fork_addr_space cr3 s.services in
      let a2 = sv.kmalloc frame_bytes a1.1 in
      let a3 = sv.kmalloc irq_stack a2.1 in
      elim (Bool-cases (a1.0 == 0 || a2.0 == 0 || a3.0 == 0)) [
        | inl fails ↦ inl (ground arith)
        | inr works ↦
            let c1 : a1.0 == 0 ≡ false = ground arith in
            let c2 : a2.0 == 0 ≡ false = ground arith in
            let c3 : a3.0 == 0 ≡ false = ground arith in
            rw (c1, c2)
              (inr (record {
                was_dead = off;
                state = ground arith;
                is_user = ground arith;
                pid = ground arith;
                name = ground arith;
                cr3 = ground arith;
                slice = ground arith;
                eax = ground arith;
                frame = λ k lt ne. ground arith;
                outside = λ a out. ground arith;
              }))
      ]

  Child-Found :
      {name : List ℕ} {frame cr3 : ℕ} {s s' : Sched E} {r : ℕ × Sched E}
      → Found s r
      → r.0 < max_tasks
      → Child sv name frame cr3 r.1 s' r.0
      → Child sv name frame cr3 s s' r.0
  Child-Found {frame = frame} {cr3 = cr3} f lt c = record {
    was_dead = f.dead lt;
    state = c.state;
    is_user = c.is_user;
    pid = c.pid ∙ f.next_pid;
    name = c.name;
    cr3 = c.cr3 ∙ ap (λ (e : E). (sv.paging_fork_addr_space cr3 e).0) f.services;
    slice = c.slice;
    eax = c.eax;
    frame = λ k h ne. c.frame k h ne ∙ ap (λ (m : ℕ → ℕ). m (frame + k)) f.memory;
    outside = λ a out. c.outside a out ∙ ap (λ (m : ℕ → ℕ). m a) f.memory;
  }

  -- In a valid state, a fork either returns 0; or there is a slot whose task was dead and is now the
  -- child: a live user task with the next pid, the copied address space, a full slice, and the
  -- parent's frame copied word by word, in which eax is 0. No other word of memory changes.
  pub task_fork_user-Child :
      (name : List ℕ) (frame cr3 : ℕ) (s : Sched E)
      → Valid s
      → ((task_fork_user sv name frame cr3 s).0 ≡ 0)
        ⊎ ((slot : ℕ) × Child sv name frame cr3 s (task_fork_user sv name frame cr3 s).1 slot)
  unfolding task_fork_user
  task_fork_user-Child name frame cr3 s v =
      let f = Slot-Found s (alloc_slot s) v (alloc_slot-Slot s) in
      let (slot, s1) = alloc_slot s in
      elim (Bool-cases (leb max_tasks slot)) [
        | inl none_left ↦ rw (none_left) (inl refl)
        | inr room ↦
            let lt : slot < max_tasks = ground arith in
            let off : (s1.tasks slot).state ≡ false =
              ap (λ (t : Task). t.state) (f.tasks slot) ∙ f.dead lt in
            rw (room) (elim (fork_at-Child slot name frame cr3 s1 off) [
              | inl fails ↦ inl fails
              | inr child ↦ inr (slot, Child-Found f lt child)
            ])
      ]
