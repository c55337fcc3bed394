-- ===== src/Sched/Switch.antt =====
-- The round robin of kernel/sched.c: which task the tick picks, and what a switch leaves.
use native.Mathlib.Nat.{mod-lt, mod-eq_of_lt, add-mod_right}
use nova_kernel.Prelude.{
  ℕ, zero, suc, ◌+◌, ◌%◌, ◌<◌, ◌≤◌, ◌≡◌, ◌≢◌, refl, Bool, true, false, arith, ltb, leb, ◌==◌,
  if◌then◌else◌, inl, inr, Bool-cases, ◌∙◌, sym, subst,
}
use nova_kernel.Sched.{
  Task, Sched, Services, max_tasks, kernel_pd, current_task, switch_to, sched_tick, tick_from,
  renew,
}

-- the page directory that a task runs on
abbrev pub space_of : Task → ℕ
space_of t = if t.is_user then t.cr3 else kernel_pd

-- The table is not empty and not too long, the running task is a live one of it, no slot past its
-- end is live, and the processor runs on the address space of the running task.
pub record Valid {E : Type 0} (s : Sched E) : Type 0 where
  pub here : s.current < s.task_count
  pub small : s.task_count ≤ max_tasks
  pub live : (current_task s).state ≡ true
  pub beyond : (i : ℕ) → s.task_count ≤ i → (s.tasks i).state ≡ false
  pub space : s.cpu_cr3 ≡ space_of (current_task s)

-- The first live slot in the cyclic order from `current + first` on.
pub record Next {E : Type 0} (s : Sched E) (first d : ℕ) : Type 0 where
  pub lo : first ≤ d
  pub hi : d ≤ s.task_count
  pub live : (s.tasks ((s.current + d) % s.task_count)).state ≡ true
  pub first_one :
      (e : ℕ) → first ≤ e → e < d → (s.tasks ((s.current + e) % s.task_count)).state ≡ false

module _ {E : Type 0} (sv : Services E) where
  abbrev pub resumed : ℕ → Sched E → Sched E
  resumed next s = switch_to sv s.sched_current_frame next (renew next s)

  -- the last slot that the tick looks at is that of the running task
  own_slot : (s : Sched E) → Valid s → (s.current + s.task_count) % s.task_count ≡ s.current
  own_slot s v = add-mod_right s.current s.task_count ∙ mod-eq_of_lt v.here

  slot_lt : (s : Sched E) (i : ℕ) → Valid s → (s.current + i) % s.task_count < s.task_count
  slot_lt s i v = let h = v.here in mod-lt (s.current + i) (omega arith)

  not_last :
      (i : ℕ) (s : Sched E)
      → Valid s
      → (s.tasks ((s.current + i) % s.task_count)).state ≡ false
      → i ≢ s.task_count
  not_last i s v off q =
      let same : (s.current + i) % s.task_count ≡ s.current = rw (q) (own_slot s v) in
      let live = v.live in
      let off' : (s.tasks s.current).state ≡ false = rw (← same) off in ground arith

  tick_from_lem :
      (n i : ℕ) (s : Sched E)
      → Valid s
      → s.sched_current_frame ≢ 0
      → i + n ≡ s.task_count + 1
      → i ≤ s.task_count
      → (d : ℕ) × Next s i d × (tick_from sv n i s ≡ resumed ((s.current + d) % s.task_count) s)
  unfolding tick_from
  tick_from_lem zero i s v f e h = absurd (omega arith)
  tick_from_lem (suc n) i s v f e h =
      let lt = slot_lt s i v in
      let inside : leb s.task_count ((s.current + i) % s.task_count) ≡ false = ground arith in
      let frame : s.sched_current_frame == 0 ≡ false = ground arith in
      elim (Bool-cases (s.tasks ((s.current + i) % s.task_count)).state) [
        | inl on ↦ (
          i,
          record { lo = omega arith; hi = h; live = on; first_one = λ k a b. absurd (omega arith) },
          rw (inside, on, frame),
        )
        | inr off ↦
            let more = not_last i s v off in
            let rest = tick_from_lem n (i + 1) s v f (omega arith) (omega arith) in
            let l = rest.1.lo in
            (
              rest.0,
              record {
                lo = omega arith;
                hi = rest.1.hi;
                live = rest.1.live;
                first_one = λ k a b. elim (Bool-cases (k == i)) [
                  | inl same ↦ let q : k ≡ i = ground arith in rw (q) off
                  | inr other ↦ rest.1.first_one k (ground arith) b
                ];
              },
              rw (inside, off) rest.2,
            )
      ]

-- What a switch from the tick leaves: the running task's frame is saved, the processor runs on the
-- stack, the address space and the interrupt stack of the next, and no other task is touched.
pub record Resumed {E : Type 0} (next : ℕ) (s s' : Sched E) : Type 0 where
  pub running : s'.current ≡ next
  pub saved : (s'.tasks s.current).esp ≡ s.sched_current_frame
  pub restored :
      s'.cpu_esp ≡ (if next == s.current then s.sched_current_frame else (s.tasks next).esp)
  pub space : s'.cpu_cr3 ≡ space_of (s.tasks next)
  pub stack :
      s'.cpu_esp0
      ≡ (if (s.tasks next).irq_stack_top == 0 then s.cpu_esp0 else (s.tasks next).irq_stack_top)
  pub others : (i : ℕ) → i ≢ s.current → i ≢ next → s'.tasks i ≡ s.tasks i
  pub slice : (s'.tasks next).slice_left ≡ 5
  pub counted : s'.task_count ≡ s.task_count
  pub states : (i : ℕ) → (s'.tasks i).state ≡ (s.tasks i).state
  pub valid : Valid s'

-- Giving out the slices leaves everything but the slices and the saved frame.
pub record Renewed {E : Type 0} (next : ℕ) (s s1 : Sched E) : Type 0 where
  pub state : (i : ℕ) → (s1.tasks i).state ≡ (s.tasks i).state
  pub is_user : (i : ℕ) → (s1.tasks i).is_user ≡ (s.tasks i).is_user
  pub cr3 : (i : ℕ) → (s1.tasks i).cr3 ≡ (s.tasks i).cr3
  pub stack : (i : ℕ) → (s1.tasks i).irq_stack_top ≡ (s.tasks i).irq_stack_top
  pub esp :
      (i : ℕ)
      → (s1.tasks i).esp ≡ (if i == s.current then s.sched_current_frame else (s.tasks i).esp)
  pub others : (i : ℕ) → i ≢ s.current → i ≢ next → s1.tasks i ≡ s.tasks i
  pub slice : (s1.tasks next).slice_left ≡ 5
  pub current : s1.current ≡ s.current
  pub task_count : s1.task_count ≡ s.task_count
  pub space : s1.cpu_cr3 ≡ s.cpu_cr3
  pub esp0 : s1.cpu_esp0 ≡ s.cpu_esp0
  pub frame : s1.sched_current_frame ≡ s.sched_current_frame

pub renew-Renewed : {E : Type 0} (next : ℕ) (s : Sched E) → Renewed next s (renew next s)
unfolding renew
renew-Renewed next s = record {
  state = λ i. ground arith;
  is_user = λ i. ground arith;
  cr3 = λ i. ground arith;
  stack = λ i. ground arith;
  esp = λ i. ground arith;
  others = λ i p q. ground arith;
  slice = ground arith;
  current = refl;
  task_count = refl;
  space = refl;
  esp0 = refl;
  frame = refl;
}

-- A switch on its own.
pub record Switched {E : Type 0} (frame next : ℕ) (s s' : Sched E) : Type 0 where
  pub running : s'.current ≡ next
  pub task_count : s'.task_count ≡ s.task_count
  pub saved : (s'.tasks s.current).esp ≡ frame
  pub restored : s'.cpu_esp ≡ (if next == s.current then frame else (s.tasks next).esp)
  pub space : s'.cpu_cr3 ≡ space_of (s.tasks next)
  pub stack :
      s'.cpu_esp0
      ≡ (if (s.tasks next).irq_stack_top == 0 then s.cpu_esp0 else (s.tasks next).irq_stack_top)
  pub others : (i : ℕ) → i ≢ s.current → s'.tasks i ≡ s.tasks i
  pub slices : (i : ℕ) → (s'.tasks i).slice_left ≡ (s.tasks i).slice_left
  pub states : (i : ℕ) → (s'.tasks i).state ≡ (s.tasks i).state
  pub spaces : (i : ℕ) → space_of (s'.tasks i) ≡ space_of (s.tasks i)

module _ {E : Type 0} (sv : Services E) where
  pub switch_to-Switched :
      (frame next : ℕ) (s : Sched E)
      → Valid s
      → next < s.task_count
      → (s.tasks next).state ≡ true
      → Switched frame next s (switch_to sv frame next s)
  unfolding switch_to
  switch_to-Switched frame next s v lt on =
      let small = v.small in
      let here = v.here in
      let sp = v.space in
      let a : leb max_tasks next ≡ false = ground arith in
      let b : leb max_tasks s.current ≡ false = ground arith in
      rw (a, b, on)
        (record {
          running = refl;
          task_count = refl;
          saved = ground arith;
          restored = ground arith;
          space = ground arith;
          stack = ground arith;
          others = λ i p. ground arith;
          slices = λ i. ground arith;
          states = λ i. ground arith;
          spaces = λ i. ground arith;
        })

if_same_test : (b : Bool) (x y : ℕ) → (if b then x else (if b then x else y)) ≡ (if b then x else y)
if_same_test true x y = refl
if_same_test false x y = refl

module _ {E : Type 0} where
  pub Switched-Valid :
      {frame next : ℕ} {s s' : Sched E}
      → Switched frame next s s'
      → Valid s
      → next < s.task_count
      → (s.tasks next).state ≡ true
      → Valid s'
  Switched-Valid {next = next} {s = s} w v lt on = record {
    here = rw (w.running, w.task_count) lt;
    small = rw (w.task_count) v.small;
    live = rw (w.running) (w.states next ∙ on);
    beyond = λ i h. w.states i ∙ v.beyond i (rw (← w.task_count) h);
    space = rw (w.running) (w.space ∙ sym (w.spaces next));
  }

  Renewed-space :
      {next : ℕ} {s s1 : Sched E} (i : ℕ)
      → Renewed next s s1
      → space_of (s1.tasks i) ≡ space_of (s.tasks i)
  Renewed-space i r = rw (r.is_user i, r.cr3 i)

  pub Renewed-Valid : {next : ℕ} {s s1 : Sched E} → Renewed next s s1 → Valid s → Valid s1
  Renewed-Valid {s = s} r v = record {
    here = rw (r.current, r.task_count) v.here;
    small = rw (r.task_count) v.small;
    live = rw (r.current) (r.state s.current ∙ v.live);
    beyond = λ i h. r.state i ∙ v.beyond i (rw (← r.task_count) h);
    space = rw (r.current) (r.space ∙ v.space ∙ sym (Renewed-space s.current r));
  }

  pub resumed-Resumed :
      (sv : Services E) (next : ℕ) (s : Sched E)
      → Valid s
      → next < s.task_count
      → (s.tasks next).state ≡ true
      → Resumed next s (resumed sv next s)
  unfolding renew
  resumed-Resumed sv next s v lt on =
      let r = renew-Renewed next s in
      let v1 = Renewed-Valid r v in
      let on1 : ((renew next s).tasks next).state ≡ true = r.state next ∙ on in
      let w =
        switch_to-Switched sv s.sched_current_frame next (renew next s) v1 (rw (r.task_count) lt)
          on1 in
      record {
        running = w.running;
        saved = rw (← r.current) w.saved;
        restored = w.restored ∙ (rw (r.current, r.esp next) (if_same_test (next == s.current) _ _));
        space = w.space ∙ Renewed-space next r;
        stack = w.stack ∙ (rw (r.stack next, r.esp0) refl);
        others = λ i p q. w.others i (rw (r.current) p) ∙ r.others i p q;
        slice = w.slices next ∙ r.slice;
        counted = w.task_count ∙ r.task_count;
        states = λ i. w.states i ∙ r.state i;
        valid = Switched-Valid w v1 (rw (r.task_count) lt) on1;
      }

  expired :
      (sv : Services E) (s : Sched E)
      → Valid s
      → s.sched_ready ≡ true
      → 2 ≤ s.task_count
      → (current_task s).slice_left ≡ 0
      → sched_tick sv s ≡ tick_from sv s.task_count 1 s
  unfolding sched_tick
  expired sv s v ready two slice =
      let here = v.here in
      let a : ltb s.task_count 2 ≡ false = ground arith in
      let b : leb s.task_count s.current ≡ false = ground arith in
      let c : ltb 0 (current_task s).slice_left ≡ false = ground arith in rw (a, b, ready, c)

  -- When the slice of the running task is used up, in a valid state with at least two slots and an
  -- interrupt frame, the tick resumes the first live task after the running one in cyclic order,
  -- which is the running task itself if no other is live.
  pub sched_tick-Resumed :
      (sv : Services E) (s : Sched E)
      → Valid s
      → s.sched_ready ≡ true
      → s.sched_current_frame ≢ 0
      → 2 ≤ s.task_count
      → (current_task s).slice_left ≡ 0
      → (d : ℕ) × Next s 1 d × Resumed ((s.current + d) % s.task_count) s (sched_tick sv s)
  sched_tick-Resumed sv s v ready f two slice =
      let p = tick_from_lem sv s.task_count 1 s v f (omega arith) (omega arith) in
      (
        p.0,
        p.1,
        subst (Resumed ((s.current + p.0) % s.task_count) s)
            (sym (expired sv s v ready two slice ∙ p.2))
            (resumed-Resumed sv _ s v (slot_lt sv s p.0 v) p.1.live),
      )
