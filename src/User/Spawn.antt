-- ===== src/User/Spawn.antt =====
-- `user_spawn`, kernel/user.c: the loader joined with the address spaces and the scheduler.
use nova_kernel.Prelude.{ℕ, ◌-◌, not, ◌==◌, if◌then◌else◌, List}
use nova_kernel.Paging.{
  Paging, paging_switch, paging_create_addr_space, paging_destroy_addr_space,
  paging_map_user_region,
}
use nova_kernel.Sched.{Sched, Services}
use nova_kernel.Sched.Create.{task_create_user}
use nova_kernel.User.{user_stack_top, user_load_elf}

-- The pid, or 0, with the states that the call leaves, and the bytes that the new address space shows.
pub record Spawned (E : Type 0) : Type 0 where
  pub pid : ℕ
  pub paging : Paging
  pub sched : Sched E
  pub mem : ℕ → ℕ

-- back to the old address space, with the new one taken down
unfoldable pub give_up : ℕ → ℕ → Paging → Paging
give_up old cr3 p = paging_destroy_addr_space cr3 (paging_switch old p)

module _ {E : Type 0} (sv : Services E) where
  -- `fresh` is what the new address space shows before anything is loaded.
  unfoldable pub user_spawn : List ℕ → (ℕ → ℕ) → ℕ → (ℕ → ℕ) → Paging → Sched E → Spawned E
  user_spawn name img size fresh p s =
      let (cr3, p1) = paging_create_addr_space p in
      let old = p1.cr3 in
      let (entry, l) =
        user_load_elf cr3 img size (record { paging = paging_switch cr3 p1; mem = fresh }) in
      let (mapped, p2) = paging_map_user_region cr3 (user_stack_top - 0x2000) 0x2000 l.paging in
      let (pid, s1) = task_create_user sv name entry cr3 s in
      if cr3 == 0
      then record { pid = 0; paging = p1; sched = s; mem = fresh }
      else if entry == 0
      then record { pid = 0; paging = give_up old cr3 l.paging; sched = s; mem = l.mem }
      else if not mapped
      then record { pid = 0; paging = give_up old cr3 p2; sched = s; mem = l.mem }
      else record {
        pid = pid;
        paging =
            let back = paging_switch old p2 in
            if pid == 0 then paging_destroy_addr_space cr3 back else back;
        sched = s1;
        mem = l.mem;
      }
