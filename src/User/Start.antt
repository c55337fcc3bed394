-- ===== src/User/Start.antt =====
-- How `user_spawn`, kernel/user.c, ends.
use nova_kernel.Prelude.{
  ℕ, ◌-◌, ◌≡◌, ◌≢◌, refl, Bool, true, false, not, ◌==◌, if◌then◌else◌, List, arith, inl, inr, ◌⊎◌,
  for_range, for_range_ind, ◌∙◌,
}
use nova_kernel.Paging.{
  Paging, paging_switch, paging_create_addr_space, paging_destroy_addr_space, astray, take_two,
  copy_page, store, word, release_table, release_page, frame_of, load, kernel_pt,
  paging_map_user_region,
}
use nova_kernel.Sched.{Sched, Services}
use nova_kernel.Sched.Create.{task_create_user}
use nova_kernel.Sched.Switch.{Valid}
use nova_kernel.Sched.Fork.{Undisturbed, new_tasks-Undisturbed}
use nova_kernel.Sched.Launch.{NewUser, task_create_user-NewUser}
use nova_kernel.User.{user_load_elf, user_stack_top}
use nova_kernel.User.Spawn.{Spawned, user_spawn, give_up}

-- a function on the pages that leaves CR3
Still : (Paging → Paging) → Type 0
Still f = (p : Paging) → (f p).cr3 ≡ p.cr3

loop-Still :
    (rounds first : ℕ) (step : ℕ → Paging → Paging)
    → ((k : ℕ) → Still (step k))
    → Still (for_range rounds first step)
unfolding Still
loop-Still rounds first step h =
    for_range_ind Still step rounds first (λ p. refl) (λ k f a p. h k (f p) ∙ a p)

take_two-cr3 : (p : Paging) → (take_two p).3.cr3 ≡ p.cr3
unfolding take_two
take_two-cr3 p = ground arith

create-cr3 : (p : Paging) → (paging_create_addr_space p).1.cr3 ≡ p.cr3
unfolding paging_create_addr_space astray Still
create-cr3 p =
    let a = take_two-cr3 p in
    let (done, pd, pt, p1) = take_two p in
    let b =
      loop-Still 256 512 (λ i q. store (word pt i) 0 q) (λ k q. refl) (copy_page pt kernel_pt p1) in
    ground arith

release_page-Still : (pt k : ℕ) → Still (release_page pt k)
unfolding release_page Still
release_page-Still pt k p = ground arith

release_table-Still : (cr3 k : ℕ) → Still (release_table cr3 k)
unfolding release_table astray Still
release_table-Still cr3 k p =
    let b =
      loop-Still 256 512 (release_page (frame_of (load p (word cr3 k))))
        (release_page-Still (frame_of (load p (word cr3 k)))) p in
    ground arith

destroy-Still : (cr3 : ℕ) → Still (paging_destroy_addr_space cr3)
unfolding paging_destroy_addr_space astray Still
destroy-Still cr3 p =
    let a = loop-Still 1024 0 (release_table cr3) (release_table-Still cr3) p in ground arith

give_up-cr3 : (old cr3 : ℕ) (p : Paging) → (give_up old cr3 p).cr3 ≡ old
unfolding give_up paging_switch Still
give_up-cr3 old cr3 p = destroy-Still cr3 (paging_switch old p)

if-cr3 : (b : Bool) (x y : Paging) {c : ℕ} → x.cr3 ≡ c → y.cr3 ≡ c → (if b then x else y).cr3 ≡ c
if-cr3 true x y p q = p
if-cr3 false x y p q = q

-- What a spawn leaves, whether or not it succeeds.
pub record Started {E : Type 0} (task_name : List ℕ) (p : Paging) (s : Sched E) (r : Spawned E)
    : Type 0 where
  pub cr3 : r.paging.cr3 ≡ p.cr3
  pub sched : Undisturbed s r.sched
  pub result :
      (r.pid ≡ 0)
      ⊎ ((slot : ℕ) × (r.pid ≡ s.next_pid)
          × ((paging_create_addr_space p).0 ≢ 0)
          × NewUser task_name (paging_create_addr_space p).0 s r.sched slot)

module _ {E : Type 0} (sv : Services E) where
  if-Started :
      {name : List ℕ} {p : Paging} {s : Sched E} (b : Bool) (x y : Spawned E)
      → Started name p s x
      → (b ≡ false → Started name p s y)
      → Started name p s (if b then x else y)
  if-Started true x y p q = p
  if-Started false x y p q = q refl

  -- In a valid state of the scheduler, a spawn that does not go astray (no copy leaves the pages of its
  -- segment, and no address in the window of user programs is followed) comes back to the address
  -- space in which it was called, with every live task as it was and the running task running. It
  -- returns 0, or the next pid, and then a slot that was dead is a live user task with that pid, the name and
  -- a full slice, on the new address space.
  pub user_spawn-Started :
      (name : List ℕ) (img : ℕ → ℕ) (size : ℕ) (fresh : ℕ → ℕ) (p : Paging) (s : Sched E)
      → Valid s
      → Started name p s (user_spawn sv name img size fresh p s)
  unfolding user_spawn paging_switch give_up
  user_spawn-Started name img size fresh p s v =
      let c = create-cr3 p in
      let cr3 = (paging_create_addr_space p).0 in
      let p1 = (paging_create_addr_space p).1 in
      let el = user_load_elf cr3 img size (record { paging = paging_switch cr3 p1; mem = fresh }) in
      let m = paging_map_user_region cr3 (user_stack_top - 0x2000) 0x2000 el.1.paging in
      let t = task_create_user sv name el.0 cr3 s in
      let u = (new_tasks-Undisturbed sv name 0 el.0 0 cr3 s v).1 in
      let same : Undisturbed s s = record { live = λ i on. refl; current = refl; valid = v } in
      if-Started (cr3 == 0) _ _ (record { cr3 = c; sched = same; result = inl refl })
        (λ made.
          if-Started (el.0 == 0) _ _
            (record {
              cr3 = give_up-cr3 p1.cr3 cr3 el.1.paging ∙ c;
              sched = same;
              result = inl refl;
            })
            (λ loaded.
              if-Started (not m.0) _ _
                (record { cr3 = give_up-cr3 p1.cr3 cr3 m.1 ∙ c; sched = same; result = inl refl })
                (λ mapped. record {
                  cr3 = if-cr3 (t.0 == 0) _ _ (give_up-cr3 p1.cr3 cr3 m.1 ∙ c) c;
                  sched = u;
                  result = elim (task_create_user-NewUser sv name el.0 cr3 s v) [
                    | inl none_made ↦ inl none_made
                    | inr (pid, (slot, task)) ↦ inr (slot, pid, (ground arith), task)
                  ];
                })))
