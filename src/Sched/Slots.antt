-- ===== src/Sched/Slots.antt =====
-- The slots of the task table, kernel/sched.c.
use nova_kernel.Prelude.{
  ℕ, zero, suc, ◌+◌, ◌<◌, ◌≤◌, ◌≡◌, true, false, arith, ltb, ◌==◌, inl, inr, Bool-cases,
}
use nova_kernel.Sched.{Sched, max_tasks, slot_from, alloc_slot}

-- What `alloc_slot` returns: a dead slot of the table, the first; or a new one, when all are live;
-- or nothing, when there are sixteen live tasks.
pub data Slot {E : Type 0} (s : Sched E) : ℕ × Sched E → Type 0 where
  reused :
      (i : ℕ)
      → i < s.task_count
      → (s.tasks i).state ≡ false
      → ((j : ℕ) → j < i → (s.tasks j).state ≡ true)
      → Slot s (i, s)
  extended :
      s.task_count < max_tasks
      → ((j : ℕ) → j < s.task_count → (s.tasks j).state ≡ true)
      → Slot s (s.task_count, record s { task_count = s.task_count + 1 })
  full :
      max_tasks ≤ s.task_count
      → ((j : ℕ) → j < s.task_count → (s.tasks j).state ≡ true)
      → Slot s (max_tasks, s)

module _ {E : Type 0} where
  slot_from-Slot :
      (n i : ℕ) (s : Sched E)
      → i + n ≡ s.task_count
      → ((j : ℕ) → j < i → (s.tasks j).state ≡ true)
      → Slot s (slot_from n i s)
  unfolding slot_from
  slot_from-Slot zero i s e live = elim (Bool-cases (ltb s.task_count max_tasks)) [
    | inl room ↦ rw (room) (extended (ground arith) (λ j h. live j (omega arith)))
    | inr none_left ↦ rw (none_left) (full (ground arith) (λ j h. live j (omega arith)))
  ]
  slot_from-Slot (suc n) i s e live = elim (Bool-cases (s.tasks i).state) [
    | inl on ↦ rw (on) (
        slot_from-Slot n (i + 1) s (omega arith) (λ j h. elim (Bool-cases (j == i)) [
          | inl same ↦ let q : j ≡ i = ground arith in rw (q) on
          | inr other ↦ live j (ground arith)
        ]))
    | inr off ↦ rw (off) (reused i (omega arith) off live)
  ]

  pub alloc_slot-Slot : (s : Sched E) → Slot s (alloc_slot s)
  unfolding alloc_slot
  alloc_slot-Slot s = slot_from-Slot s.task_count 0 s (omega arith) (λ j h. absurd (omega arith))
