-- ===== src/Sched/Exit.antt =====
-- The exit of a task, kernel/sched.c.
use native.Mathlib.Nat.{mod-lt}
use nova_kernel.Prelude.{
  ℕ, zero, suc, ◌+◌, ◌-◌, ◌%◌, ◌<◌, ◌≤◌, ◌≡◌, ◌≢◌, refl, true, false, not, arith, ◌==◌,
  if◌then◌else◌, inl, inr, ◌⊎◌, Bool-cases, ◌∙◌, sym, subst, ap, ◌&&◌,
}
use nova_kernel.Sched.{
  Sched, Services, current_task, sched_exit_current, exit_from, leave_slot, adopt_slot,
  reap_zombies,
}
use nova_kernel.Sched.Switch.{Valid, Next, space_of}

-- What an exit that finds another live task leaves.
pub record Left {E : Type 0} (sv : Services E) (next : ℕ) (s s' : Sched E) : Type 0 where
  pub running : s'.current ≡ next
  pub other : next ≢ s.current
  pub dead : (s'.tasks s.current).state ≡ false
  pub restored : s'.cpu_esp ≡ (s.tasks next).esp
  pub space : s'.cpu_cr3 ≡ space_of (s.tasks next)
  pub others : (i : ℕ) → i ≢ s.current → i ≢ next → s'.tasks i ≡ s.tasks i
  pub freed : s'.services ≡ (
      if (current_task s).is_user && not ((current_task s).cr3 == 0)
      then sv.paging_destroy_addr_space (space_of (s.tasks next)) (current_task s).cr3 s.services
      else s.services)
  pub reaped : s'.zombie_cr3 ≡ 0
  pub valid : Valid s'

module _ {E : Type 0} (sv : Services E) where
  at_or_after :
      (i k : ℕ) (s : Sched E)
      → (s.tasks ((s.current + i) % s.task_count)).state ≡ false
      → (k ≢ i → (s.tasks ((s.current + k) % s.task_count)).state ≡ false)
      → (s.tasks ((s.current + k) % s.task_count)).state ≡ false
  at_or_after i k s dead q = elim (Bool-cases (k == i)) [
    | inl same ↦ let e : k ≡ i = ground arith in rw (e) dead
    | inr other ↦ q (ground arith)
  ]

  skipped :
      (n i : ℕ) (s : Sched E)
      → (s.tasks ((s.current + i) % s.task_count)).state ≡ false
      → exit_from sv (suc n) i s ≡ exit_from sv n (i + 1) s
  unfolding exit_from
  skipped n i s dead = ground arith

  exit_from_lem :
      (n i : ℕ) (s : Sched E)
      → (s.tasks s.current).state ≡ false
      → i + n ≡ s.task_count
      → (((d : ℕ) × Next s i d
            × (exit_from sv n i s ≡ adopt_slot sv ((s.current + d) % s.task_count) s))
          ⊎ (((e : ℕ)
                → i ≤ e
                → e < s.task_count
                → (s.tasks ((s.current + e) % s.task_count)).state ≡ false)
              × (exit_from sv n i s ≡ record s { halted = true })))
  unfolding exit_from
  exit_from_lem zero i s off e = inr ((λ k a b. absurd (omega arith)), refl)
  exit_from_lem (suc n) i s off e =
      elim (Bool-cases (s.tasks ((s.current + i) % s.task_count)).state) [
        | inl on ↦
            let away : (s.current + i) % s.task_count == s.current ≡ false = ground arith in
            inl (
              i,
              record {
                lo = omega arith;
                hi = omega arith;
                live = on;
                first_one = λ k a b. absurd (omega arith);
              },
              rw (away, on),
            )
        | inr dead ↦
            let skip = skipped n i s dead in
            let here =
              λ (k : ℕ) (a : i ≤ k)
                  (q : k ≢ i → (s.tasks ((s.current + k) % s.task_count)).state ≡ false).
                at_or_after i k s dead q in
            elim (exit_from_lem n (i + 1) s off (omega arith)) [
              | inl found ↦
                  let l = found.1.lo in
                  inl (
                    found.0,
                    record {
                      lo = omega arith;
                      hi = found.1.hi;
                      live = found.1.live;
                      first_one = λ k a b. here k a (λ ne. found.1.first_one k (omega arith) b);
                    },
                    skip ∙ found.2,
                  )
              | inr none_left ↦
                  inr
                    ((λ k a b. here k a (λ ne. none_left.0 k (omega arith) b)), skip ∙ none_left.1)
            ]
      ]

  -- the slot that is left, apart from the others
  leave_slot_dead : (s : Sched E) → ((leave_slot s).tasks s.current).state ≡ false
  unfolding leave_slot
  leave_slot_dead s = ground arith

  leave_slot_other : (s : Sched E) (i : ℕ) → i ≢ s.current → (leave_slot s).tasks i ≡ s.tasks i
  unfolding leave_slot
  leave_slot_other s i ne = ground arith

  adopt_slot-Valid :
      (s : Sched E) (next : ℕ)
      → Valid s
      → next < s.task_count
      → ((leave_slot s).tasks next).state ≡ true
      → Valid (adopt_slot sv next (leave_slot s))
  unfolding adopt_slot leave_slot reap_zombies
  adopt_slot-Valid s next v lt on =
      let beyond = v.beyond in
      record {
        here = ground arith;
        small = ground arith;
        live = ground arith;
        beyond = λ i h.
            let past : s.task_count ≤ i = ground arith in
            let b = beyond i past in let here = v.here in ground arith;
        space = ground arith;
      }

  adopt_slot-Left :
      (s : Sched E) (next : ℕ)
      → Valid s
      → s.zombie_cr3 ≡ 0
      → next < s.task_count
      → ((leave_slot s).tasks next).state ≡ true
      → Left sv next s (adopt_slot sv next (leave_slot s))
  unfolding adopt_slot leave_slot reap_zombies
  adopt_slot-Left s next v z lt on =
      let beyond = v.beyond in
      let ne : next ≢ s.current = λ e. ground arith in
      record {
        running = ground arith;
        other = ne;
        dead = ground arith;
        restored = ground arith;
        space = ground arith;
        others = λ i p q. ground arith;
        freed = ground arith;
        reaped = ground arith;
        valid = adopt_slot-Valid s next v lt on;
      }

  -- In a valid state with no parked address space, an exit either resumes the first other live task
  -- in cyclic order, on that task's saved stack pointer and address space, with the slot of the
  -- exiting task dead and its address space, if it has one, released with CR3 on the other's;
  -- or there is no other live task, and the processor halts.
  pub sched_exit_current-Left :
      (s : Sched E)
      → Valid s
      → s.zombie_cr3 ≡ 0
      → ((d : ℕ) × Next (leave_slot s) 1 d
          × Left sv ((s.current + d) % s.task_count) s (sched_exit_current sv s))
        ⊎ (((e : ℕ)
              → 1 ≤ e
              → e < s.task_count
              → ((leave_slot s).tasks ((s.current + e) % s.task_count)).state ≡ false)
            × ((sched_exit_current sv s).halted ≡ true))
  unfolding sched_exit_current leave_slot
  sched_exit_current-Left s v z =
      let here = v.here in
      elim (exit_from_lem (s.task_count - 1) 1 (leave_slot s) (leave_slot_dead s) (omega arith)) [
        | inl found ↦ inl (
          found.0,
          found.1,
          subst (Left sv ((s.current + found.0) % s.task_count) s) (sym found.2)
              (adopt_slot-Left s _ v z (mod-lt (s.current + found.0) (omega arith)) found.1.live),
        )
        | inr none_left ↦ inr (none_left.0, ap (λ (x : Sched E). x.halted) none_left.1)
      ]

  pub exit-Valid :
      (s : Sched E)
      → Valid s
      → Valid (sched_exit_current sv s) ⊎ ((sched_exit_current sv s).halted ≡ true)
  unfolding sched_exit_current leave_slot
  exit-Valid s v =
      let here = v.here in
      elim (exit_from_lem (s.task_count - 1) 1 (leave_slot s) (leave_slot_dead s) (omega arith)) [
        | inl found ↦ inl (
            subst (Valid {E = E}) (sym found.2)
              (adopt_slot-Valid s _ v (mod-lt (s.current + found.0) (omega arith)) found.1.live))
        | inr none_left ↦ inr (ap (λ (x : Sched E). x.halted) none_left.1)
      ]
