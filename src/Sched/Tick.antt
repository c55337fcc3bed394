-- ===== src/Sched/Tick.antt =====
-- An interrupt of the timer: the entry of kernel/isr.c and the tick of kernel/sched.c.
use nova_kernel.Prelude.{
  ℕ, ◌+◌, ◌-◌, ◌%◌, ◌<◌, ◌≤◌, ◌≡◌, ◌≢◌, refl, true, false, arith, ltb, leb, inl, inr, ◌⊎◌,
  Bool-cases, ◌∙◌, sym, subst, ap,
}
use nova_kernel.Sched.{Sched, Services, current_task, set_task, sched_enter_irq, sched_tick}
use nova_kernel.Sched.Switch.{Valid, Next, Resumed, sched_tick-Resumed}
use nova_kernel.Sched.Reach.{enter_irq-Valid, set_current-Valid}

-- An interrupt of the timer, with the address of the frame that it pushed.
unfoldable pub timer_irq : {E : Type 0} → Services E → ℕ → Sched E → Sched E
timer_irq sv r s = sched_tick sv (sched_enter_irq r s)

-- What the entry of an interrupt leaves, and what it has set.
record Entered {E : Type 0} (r : ℕ) (s s' : Sched E) : Type 0 where
  same : s'.current ≡ s.current
  counted : s'.task_count ≡ s.task_count
  states : (i : ℕ) → (s'.tasks i).state ≡ (s.tasks i).state
  slice : (current_task s').slice_left ≡ (current_task s).slice_left
  ready : s'.sched_ready ≡ true
  frame : s'.sched_current_frame ≡ r
  valid : Valid s'

module _ {E : Type 0} (sv : Services E) where
  enter-Entered : (r : ℕ) (s : Sched E) → Valid s → Entered r s (sched_enter_irq r s)
  unfolding sched_enter_irq
  enter-Entered r s v = record {
    same = ground arith;
    counted = ground arith;
    states = λ i. ground arith;
    slice = ground arith;
    ready = refl;
    frame = refl;
    valid = enter_irq-Valid sv r s v;
  }

  burn :
      (s : Sched E)
      → Valid s
      → s.sched_ready ≡ true
      → 2 ≤ s.task_count
      → 0 < (current_task s).slice_left
      → sched_tick sv s
        ≡ set_task s.current
            (record (current_task s) { slice_left = (current_task s).slice_left - 1 })
            s
  unfolding sched_tick
  burn s v ready two slice =
      let here = v.here in
      let a : ltb s.task_count 2 ≡ false = ground arith in
      let b : leb s.task_count s.current ≡ false = ground arith in
      let c : ltb 0 (current_task s).slice_left ≡ true = ground arith in rw (a, b, ready, c) refl

  -- After an interrupt the running task has a tick less of its slice, or the next live task runs.
  pub record Ticked (s s' : Sched E) : Type 0 where
    pub counted : s'.task_count ≡ s.task_count
    pub states : (i : ℕ) → (s'.tasks i).state ≡ (s.tasks i).state
    pub valid : Valid s'
    pub moved :
        ((s'.current ≡ s.current)
          × ((current_task s').slice_left + 1 ≡ (current_task s).slice_left))
        ⊎ ((d : ℕ) × (1 ≤ d)
            × ((current_task s').slice_left ≡ 5)
            × (s'.current ≡ (s.current + d) % s.task_count)
            × ((e : ℕ) → 1 ≤ e → e < d → (s.tasks ((s.current + e) % s.task_count)).state ≡ false))

  burnt :
      (s : Sched E)
      → Valid s
      → 0 < (current_task s).slice_left
      → Ticked s (
          set_task s.current
            (record (current_task s) { slice_left = (current_task s).slice_left - 1 })
            s)
  burnt s v some_left = record {
    counted = refl;
    states = λ i. ground arith;
    valid = set_current-Valid sv s (current_task s).esp ((current_task s).slice_left - 1) v;
    moved = inl (refl, ground arith);
  }

  switched :
      (s : Sched E)
      → (d : ℕ) × Next s 1 d × Resumed ((s.current + d) % s.task_count) s (sched_tick sv s)
      → Ticked s (sched_tick sv s)
  switched s (d, n, r) = record {
    counted = r.counted;
    states = r.states;
    valid = r.valid;
    moved = inr (d, n.lo, rw (r.running) r.slice, r.running, n.first_one);
  }

  tick-Ticked :
      (s : Sched E)
      → Valid s
      → s.sched_ready ≡ true
      → s.sched_current_frame ≢ 0
      → 2 ≤ s.task_count
      → Ticked s (sched_tick sv s)
  tick-Ticked s v ready f two = elim (Bool-cases (ltb 0 (current_task s).slice_left)) [
    | inl some_left ↦
        subst (Ticked s) (sym (burn s v ready two (ground arith))) (burnt s v (ground arith))
    | inr none_left ↦ switched s (sched_tick-Resumed sv s v ready f two (ground arith))
  ]

  pub same_slot : {c c' n n' : ℕ} (e : ℕ) → c' ≡ c → n' ≡ n → (c' + e) % n' ≡ (c + e) % n
  same_slot {c = c} {n' = n'} e p q = ap (λ x. (x + e) % n') p ∙ ap (λ x. (c + e) % x) q

  pub irq-Ticked :
      (r : ℕ) (s : Sched E) → Valid s → r ≢ 0 → 2 ≤ s.task_count → Ticked s (timer_irq sv r s)
  unfolding timer_irq
  irq-Ticked r s v f two =
      let en = enter-Entered r s v in
      let t =
        tick-Ticked (sched_enter_irq r s) en.valid en.ready (rw (en.frame) f)
          (rw (en.counted) two) in
      record {
        counted = t.counted ∙ en.counted;
        states = λ i. t.states i ∙ en.states i;
        valid = t.valid;
        moved = elim t.moved [
          | inl (same, slice) ↦ inl (same ∙ en.same, slice ∙ en.slice)
          | inr (d, lo, slice, next, off) ↦ inr (
            d,
            lo,
            slice,
            next ∙ (rw (en.same, en.counted) refl),
            λ e p q.
                sym (en.states _)
                ∙ ap (λ x. ((sched_enter_irq r s).tasks x).state)
                    (sym (same_slot e en.same en.counted))
                ∙ off e p q,
          )
        ];
      }
