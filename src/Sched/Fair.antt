-- ===== src/Sched/Fair.antt =====
-- The round robin of kernel/sched.c is fair: no live task waits for ever.
use nova_kernel.Prelude.{ℕ, zero, suc, ◌+◌, ◌*◌, ◌%◌, ◌≤◌, ◌≡◌, true}
use nova_kernel.Sched.{Sched, Services, current_task}
use nova_kernel.Sched.Switch.{Valid}
use nova_kernel.Sched.Tick.{timer_irq}

-- `k` of them, one after the other
unfoldable pub timer_irqs : {E : Type 0} → Services E → ℕ → (ℕ → ℕ) → Sched E → Sched E
timer_irqs sv zero frames s = s
timer_irqs sv (suc k) frames s = timer_irqs sv k (λ i. frames (i + 1)) (timer_irq sv (frames 0) s)

module _ {E : Type 0} (sv : Services E) where
  -- the task `e` slots after the running one runs within `m` interrupts
  abbrev Served : (m e : ℕ) (frames : ℕ → ℕ) (s : Sched E) → Type 0
  Served m e frames s =
      (k : ℕ) × (k ≤ m)
      × (1 ≤ k)
      × ((timer_irqs sv k frames s).current ≡ (s.current + e) % s.task_count)

  -- what holds of the task `e` slots on while it waits
  record Waiting (m e : ℕ) (s : Sched E) : Type 0 where
    valid : Valid s
    two : 2 ≤ s.task_count
    lo : 1 ≤ e
    hi : e ≤ s.task_count
    live : (s.tasks ((s.current + e) % s.task_count)).state ≡ true
    measure : (current_task s).slice_left + 6 * e ≤ m
