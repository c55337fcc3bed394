-- ===== src/Sched/Reach.antt =====
-- The runs of kernel/sched.c from the adopted boot thread.
use nova_kernel.Prelude.{
  ℕ, zero, suc, ◌+◌, ◌-◌, ◌%◌, ◌<◌, ◌≤◌, ◌≡◌, refl, Bool, true, false, not, arith, ltb, leb, ◌==◌,
  if◌then◌else◌, inl, inr, ◌⊎◌, Bool-cases, sym, subst, List,
}
use native.Mathlib.Nat.{mod-lt}
use nova_kernel.Sched.{
  Sched, Services, kernel_pd, current_task, set_task, sched_init, sched_adopt_current,
  sched_enter_irq, sched_tick, sched_yield, switch_to, sched_exit_current, tick_from, renew,
}
use nova_kernel.Sched.Create.{task_create, task_create_user, task_fork_user}
use nova_kernel.Sched.Switch.{
  Valid, switch_to-Switched, Switched-Valid, renew-Renewed, Renewed-Valid,
}
use nova_kernel.Sched.Exit.{exit-Valid}
use nova_kernel.Sched.Fork.{new_tasks-Undisturbed}

module _ {E : Type 0} (sv : Services E) where
  pub enter_irq-Valid : (r : ℕ) (s : Sched E) → Valid s → Valid (sched_enter_irq r s)
  unfolding sched_enter_irq
  enter_irq-Valid r s v =
      let here = v.here in
      let small = v.small in
      let live = v.live in
      let sp = v.space in
      record {
        here = ground arith;
        small = ground arith;
        live = ground arith;
        beyond = λ i h.
            let past : s.task_count ≤ i = ground arith in let off = v.beyond i past in ground arith;
        space = ground arith;
      }

  -- the running task's stack pointer and slice are no part of what is valid
  pub set_current-Valid :
      (s : Sched E) (x y : ℕ)
      → Valid s
      → Valid (set_task s.current (record (current_task s) { esp = x; slice_left = y }) s)
  set_current-Valid s x y v =
      let here = v.here in
      let live = v.live in
      let sp = v.space in
      record {
        here = v.here;
        small = v.small;
        live = ground arith;
        beyond = λ i h. let off = v.beyond i h in ground arith;
        space = ground arith;
      }

  switch_to_refuses :
      (frame next : ℕ) (s : Sched E) → (s.tasks next).state ≡ false → switch_to sv frame next s ≡ s
  unfolding switch_to
  switch_to_refuses frame next s off = ground arith

  switch_to-Valid :
      (frame next : ℕ) (s : Sched E)
      → Valid s
      → next < s.task_count
      → Valid (switch_to sv frame next s)
  switch_to-Valid frame next s v lt = elim (Bool-cases (s.tasks next).state) [
    | inl on ↦ Switched-Valid (switch_to-Switched sv frame next s v lt on) v lt on
    | inr off ↦ subst (Valid {E = E}) (sym (switch_to_refuses frame next s off)) v
  ]

  Valid-if : (b : Bool) {x y : Sched E} → Valid x → Valid y → Valid (if b then x else y)
  Valid-if true p q = p
  Valid-if false p q = q

  Valid-switch :
      (b : Bool) (frame next : ℕ) {x y : Sched E}
      → Valid x
      → Valid y
      → next < x.task_count
      → next < y.task_count
      → Valid (switch_to sv frame next (if b then x else y))
  Valid-switch true frame next {x = x} p q l m = switch_to-Valid frame next x p l
  Valid-switch false frame next {y = y} p q l m = switch_to-Valid frame next y q m

  sched_yield-Valid : (s : Sched E) → Valid s → Valid (sched_yield sv s)
  unfolding sched_yield
  sched_yield-Valid s v =
      let here = v.here in
      let lt = mod-lt (s.current + 1) {m = s.task_count} (omega arith) in
      let t = current_task s in
      Valid-if (ltb s.task_count 2) v (
        Valid-if (not (s.tasks ((s.current + 1) % s.task_count)).state) v (
          Valid-if (s.sched_current_frame == 0) v (
            Valid-switch (t.esp == 0) s.sched_current_frame ((s.current + 1) % s.task_count)
              (set_current-Valid s s.sched_current_frame t.slice_left v) v lt lt)))

  tick_from-Valid : (n i : ℕ) (s : Sched E) → Valid s → Valid (tick_from sv n i s)
  unfolding tick_from renew
  tick_from-Valid zero i s v = v
  tick_from-Valid (suc n) i s v =
      let here = v.here in
      let lt = mod-lt (s.current + i) {m = s.task_count} (omega arith) in
      let rest = tick_from-Valid n (i + 1) s v in
      let next = (s.current + i) % s.task_count in
      Valid-if (leb s.task_count next) rest (
        Valid-if (s.tasks next).state
          (Valid-if (s.sched_current_frame == 0) v (
            switch_to-Valid s.sched_current_frame next (renew next s)
              (Renewed-Valid (renew-Renewed next s) v) lt))
          rest)

  sched_tick-Valid : (s : Sched E) → Valid s → Valid (sched_tick sv s)
  unfolding sched_tick
  sched_tick-Valid s v =
      let t = current_task s in
      Valid-if (ltb s.task_count 2) v (
        Valid-if (leb s.task_count s.current) v (
          Valid-if (not s.sched_ready) v (
            Valid-if (ltb 0 t.slice_left) (set_current-Valid s t.esp (t.slice_left - 1) v)
              (tick_from-Valid s.task_count 1 s v))))

  -- One entry into the scheduler, which has not halted.
  pub data Step : Sched E → Sched E → Type 0 where
    enter_irq : {s : Sched E} (r : ℕ) → s.halted ≡ false → Step s (sched_enter_irq r s)
    tick : {s : Sched E} → s.halted ≡ false → Step s (sched_tick sv s)
    yield : {s : Sched E} → s.halted ≡ false → Step s (sched_yield sv s)
    exit : {s : Sched E} → s.halted ≡ false → Step s (sched_exit_current sv s)
    create :
        {s : Sched E} (name : List ℕ) (fn : ℕ)
        → s.halted ≡ false
        → Step s (task_create sv name fn s).1
    create_user :
        {s : Sched E} (name : List ℕ) (entry cr3 : ℕ)
        → s.halted ≡ false
        → Step s (task_create_user sv name entry cr3 s).1
    fork :
        {s : Sched E} (name : List ℕ) (frame cr3 : ℕ)
        → s.halted ≡ false
        → Step s (task_fork_user sv name frame cr3 s).1

  -- The runs from the boot thread, adopted in an empty table while the processor is on the kernel's
  -- page directory.
  pub data Reach : Sched E → Type 0 where
    boot :
        (name : List ℕ) (s : Sched E)
        → s.cpu_cr3 ≡ kernel_pd
        → s.halted ≡ false
        → Reach (sched_adopt_current name (sched_init s)).1
    step : {s s' : Sched E} → Reach s → Step s s' → Reach s'

  boot-Valid :
      (name : List ℕ) (s : Sched E)
      → s.cpu_cr3 ≡ kernel_pd
      → Valid (sched_adopt_current name (sched_init s)).1
  unfolding sched_adopt_current sched_init
  boot-Valid name s h = record {
    here = omega arith;
    small = omega arith;
    live = refl;
    beyond = λ i a. ground arith;
    space = h;
  }

  Step-Valid : {s s' : Sched E} → Valid s → Step s s' → Valid s' ⊎ (s'.halted ≡ true)
  Step-Valid {s = s} v (enter_irq r on) = inl (enter_irq-Valid r s v)
  Step-Valid {s = s} v (tick on) = inl (sched_tick-Valid s v)
  Step-Valid {s = s} v (yield on) = inl (sched_yield-Valid s v)
  Step-Valid {s = s} v (exit on) = exit-Valid sv s v
  Step-Valid {s = s} v (create name fn on) =
      inl (new_tasks-Undisturbed sv name fn 0 0 0 s v).0.valid
  Step-Valid {s = s} v (create_user name entry cr3 on) =
      inl (new_tasks-Undisturbed sv name 0 entry 0 cr3 s v).1.valid
  Step-Valid {s = s} v (fork name frame cr3 on) =
      inl (new_tasks-Undisturbed sv name 0 0 frame cr3 s v).2.valid

  halts_once : {s s' : Sched E} → Step s s' → s.halted ≡ false
  halts_once (enter_irq r on) = on
  halts_once (tick on) = on
  halts_once (yield on) = on
  halts_once (exit on) = on
  halts_once (create name fn on) = on
  halts_once (create_user name entry cr3 on) = on
  halts_once (fork name frame cr3 on) = on

  after :
      {s s' : Sched E}
      → Reach s
      → Step s s'
      → Valid s ⊎ (s.halted ≡ true)
      → Valid s' ⊎ (s'.halted ≡ true)
  after r st (inl v) = Step-Valid v st
  after r st (inr h) = let on = halts_once st in absurd (ground arith)

  -- Every state that the scheduler reaches from the adopted boot thread has halted; or its table is
  -- valid, the running task is a live one of it, and the processor is on that task's address space.
  pub Reach-Valid : (s : Sched E) → Reach s → Valid s ⊎ (s.halted ≡ true)
  Reach-Valid s (boot name s0 h on) = inl (boot-Valid name s0 h)
  Reach-Valid s (step {s = s1} r st) = after r st (Reach-Valid s1 r)
