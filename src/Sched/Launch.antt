-- ===== src/Sched/Launch.antt =====
-- What `task_create_user`, kernel/sched.c, gives a new task.
use nova_kernel.Prelude.{
  ℕ, ◌<◌, ◌≡◌, refl, true, false, arith, leb, ◌==◌, inl, inr, ◌⊎◌, Bool-cases, ◌∙◌, ap, List, take,
}
use nova_kernel.Sched.{Task, Sched, Services, max_tasks, alloc_slot, irq_stack}
use nova_kernel.Sched.Create.{
  new_task, alloc_irq_stack, create_user_at, task_create_user, task_setup_user_stack,
}
use nova_kernel.Sched.Slots.{alloc_slot-Slot}
use nova_kernel.Sched.Switch.{Valid}
use nova_kernel.Sched.Fork.{Slot-Found}

-- a dead slot that has become a live user task
pub record NewUser {E : Type 0} (task_name : List ℕ) (new_cr3 : ℕ) (s s' : Sched E) (slot : ℕ)
    : Type 0 where
  pub was_dead : (s.tasks slot).state ≡ false
  pub state : (s'.tasks slot).state ≡ true
  pub is_user : (s'.tasks slot).is_user ≡ true
  pub pid : (s'.tasks slot).pid ≡ s.next_pid
  pub name : (s'.tasks slot).name ≡ take 15 task_name
  pub cr3 : (s'.tasks slot).cr3 ≡ new_cr3
  pub slice : (s'.tasks slot).slice_left ≡ 5

module _ {E : Type 0} (sv : Services E) where
  create_user_at-NewUser :
      (slot : ℕ) (name : List ℕ) (entry cr3 : ℕ) (s : Sched E)
      → (s.tasks slot).state ≡ false
      → ((create_user_at sv slot name entry cr3 s).0 ≡ 0)
        ⊎ (((create_user_at sv slot name entry cr3 s).0 ≡ s.next_pid)
            × NewUser name cr3 s (create_user_at sv slot name entry cr3 s).1 slot)
  unfolding create_user_at alloc_irq_stack new_task task_setup_user_stack
  create_user_at-NewUser slot name entry cr3 s off =
      let a = sv.kmalloc irq_stack s.services in
      elim (Bool-cases (a.0 == 0)) [
        | inl fails ↦ inl (ground arith)
        | inr works ↦ inr (
          ground arith,
          record {
            was_dead = off;
            state = ground arith;
            is_user = ground arith;
            pid = ground arith;
            name = ground arith;
            cr3 = ground arith;
            slice = ground arith;
          },
        )
      ]

  pub task_create_user-NewUser :
      (name : List ℕ) (entry cr3 : ℕ) (s : Sched E)
      → Valid s
      → ((task_create_user sv name entry cr3 s).0 ≡ 0)
        ⊎ (((task_create_user sv name entry cr3 s).0 ≡ s.next_pid)
            × ((slot : ℕ) × NewUser name cr3 s (task_create_user sv name entry cr3 s).1 slot))
  unfolding task_create_user
  task_create_user-NewUser name entry cr3 s v =
      let f = Slot-Found s (alloc_slot s) v (alloc_slot-Slot s) in
      let (slot, s1) = alloc_slot s in
      elim (Bool-cases (leb max_tasks slot)) [
        | inl none_left ↦ rw (none_left) (inl refl)
        | inr room ↦
            let lt : slot < max_tasks = ground arith in
            let off : (s1.tasks slot).state ≡ false =
              ap (λ (t : Task). t.state) (f.tasks slot) ∙ f.dead lt in
            rw (room) (elim (create_user_at-NewUser slot name entry cr3 s1 off) [
              | inl fails ↦ inl fails
              | inr (pid, c) ↦ inr (
                pid ∙ f.next_pid,
                (
                  slot,
                  record {
                    was_dead = f.dead lt;
                    state = c.state;
                    is_user = c.is_user;
                    pid = c.pid ∙ f.next_pid;
                    name = c.name;
                    cr3 = c.cr3;
                    slice = c.slice;
                  },
                ),
              )
            ])
      ]
