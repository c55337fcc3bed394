-- ===== src/Paging.antt =====
-- The address spaces of kernel/paging.c over the frames of kernel/mm.c: per-process page tables and
-- copy-on-write. Physical memory is a function from the address of a 32-bit word. The kernel reaches a
-- frame by its address, which works where the kernel half of each page table maps it to itself: below
-- 4 MB, but not from 0x200000 to 0x2FFFFF, the window of user programs, although `frame_alloc` hands
-- out frames there too. An operation that would follow such an address goes astray: it stops, and
-- `stray` is set for good. What the machine does from there on (it touches a page of the loaded
-- program, or faults in ring 0) is not modelled, and the rest of the state is then without meaning.
-- Of the processor the model keeps CR3; the translation buffer, which the source flushes, is left out.
pub mod Tables
pub mod Fork
pub mod Cow
pub mod Isolate
mod Tests
use nova_kernel.Prelude.{
  ℕ, zero, suc, ◌+◌, ◌-◌, ◌*◌, ◌/◌, ◌%◌, Bool, true, false, not, ◌&&◌, ◌||◌, leb, ltb, ◌==◌,
  if◌then◌else◌, update, for_range,
}
use nova_kernel.Prelude.Words.{add32}
use nova_kernel.Mm.{Mm, frame_alloc, frame_free, mm_ref_inc, mm_ref_dec}

abbrev pub user_pg_start : ℕ
user_pg_start = 512

abbrev pub user_pg_end : ℕ
user_pg_end = 768

abbrev pub kernel_pd : ℕ
kernel_pd = 0x9000

abbrev pub kernel_pt : ℕ
kernel_pt = 0xA000

pub record Paging : Type 0 where
  pub memory : ℕ → ℕ
  pub mm : Mm
  pub cr3 : ℕ
  pub stray : Bool

-- The page at an address is one that the kernel's part of every page table maps to itself.
abbrev pub is_direct : ℕ → Bool
is_direct a = ltb a 0x200000 || leb 0x300000 a && ltb a 0x400000

unfoldable pub astray : Paging → Paging
astray p = record p { stray = true }

-- The bits of an entry: PTE_P is bit 0, PTE_W bit 1, PTE_U bit 2, and the frame stands from bit 12
-- on.
abbrev pub present : ℕ → Bool
present e = e % 2 == 1

abbrev pub writable : ℕ → Bool
writable e = e / 2 % 2 == 1

abbrev pub user : ℕ → Bool
user e = e / 4 % 2 == 1

-- e & 0xFFFFF000, and e >> 12
abbrev pub frame_of : ℕ → ℕ
frame_of e = e / 0x1000 * 0x1000

-- e & ~PTE_W
abbrev pub read_only : ℕ → ℕ
read_only e = if writable e then e - 2 else e

-- ((u32*)base)[i]
abbrev pub word : ℕ → ℕ → ℕ
word base i = base + i * 4

abbrev pub load : Paging → ℕ → ℕ
load p a = p.memory a

abbrev pub store : ℕ → ℕ → Paging → Paging
store a v p = record p { memory = update p.memory a v }

-- memcpy of a page
abbrev pub copy_page : ℕ → ℕ → Paging → Paging
copy_page to from p = record p {
  memory = λ a. if leb to a && ltb a (to + 0x1000) then p.memory (from + (a - to)) else p.memory a;
}

unfoldable pub paging_switch : ℕ → Paging → Paging
paging_switch cr3 p = record p { cr3 = cr3 }

-- An entry of the kernel's page table: its page at the same address, present and writable.
abbrev pub kernel_pte : ℕ → ℕ → ℕ
kernel_pte i old = if leb user_pg_start i && ltb i user_pg_end then 0 else i * 0x1000 + 3

-- The hardening of the processor apart.
unfoldable pub paging_init : Paging → Paging
paging_init p =
    let tables = for_range 1024 0 (λ i q. store (word kernel_pt i) (kernel_pte i 0) q) p in
    paging_switch kernel_pd (store (word kernel_pd 0) (kernel_pt + 7) tables)

abbrev pub take_frame : Paging → ℕ × Paging
take_frame p = let (f, m) = frame_alloc p.mm in (f, record p { mm = m })

abbrev pub give_frame : ℕ → Paging → Paging
give_frame a p = if not (a == 0) then record p { mm = frame_free a p.mm } else p

abbrev pub ref_inc : ℕ → Paging → Paging
ref_inc f p = record p { mm = mm_ref_inc f p.mm }

abbrev pub ref_dec : ℕ → Paging → Paging
ref_dec f p = record p { mm = mm_ref_dec f p.mm }

unfoldable pub map_user_page : ℕ → ℕ → Paging → Bool × Paging
map_user_page pt idx p =
    let (f, q) = take_frame p in
    if not (is_direct pt)
    then (false, astray p)
    else if present (load p (word pt idx))
    then (true, p)
    else if f == 0
    then (false, q)
    else (true, ref_inc (f / 0x1000) (store (word pt idx) (f + 7) q))

-- The loop of `paging_map_user_region`, with `n` pages left from `i` on.
unfoldable pub map_from : ℕ → ℕ → ℕ → Paging → Bool × Paging
map_from zero pt i p = (true, p)
map_from (suc n) pt i p =
    let r = map_user_page pt i p in let rest = map_from n pt (i + 1) r.1 in if r.0 then rest else r

-- Without an address in the last page the loop does not run.
unfoldable pub paging_map_user_region : ℕ → ℕ → ℕ → Paging → Bool × Paging
paging_map_user_region cr3 vaddr nbytes p =
    let pde = load p (word cr3 (vaddr / 0x400000 % 1024)) in
    let start = vaddr / 0x1000 % 1024 in
    let end = add32 vaddr (nbytes - 1) / 0x1000 % 1024 in
    if nbytes == 0
    then (true, p)
    else if not (is_direct cr3)
    then (false, astray p)
    else if not (present pde)
    then (false, p)
    else map_from (end + 1 - start) (frame_of pde) start p

-- Two frames, for a directory and a table; both are given back when one is missing.
unfoldable pub take_two : Paging → Bool × ℕ × ℕ × Paging
take_two p =
    let (pd, p1) = take_frame p in
    let (pt, p2) = take_frame p1 in
    if pd == 0 || pt == 0
    then (false, pd, pt, give_frame pt (give_frame pd p2))
    else (true, pd, pt, p2)

unfoldable pub paging_create_addr_space : Paging → ℕ × Paging
paging_create_addr_space p =
    let (done, pd, pt, p1) = take_two p in
    let p2 = copy_page pt kernel_pt p1 in
    let p3 =
      for_range (user_pg_end - user_pg_start) user_pg_start (λ i q. store (word pt i) 0 q) p2 in
    let p4 = copy_page pd kernel_pd p3 in
    if not done
    then (0, p1)
    else if is_direct pd && is_direct pt
    then (pd, store (word pd 0) (pt + 7) p4)
    else (0, astray p1)

-- One round of the loop of the fork: the page `i` is shared by both tables, read-only.
unfoldable pub share_page : ℕ → ℕ → ℕ → Paging → Paging
share_page ppt pt i p =
    let e = load p (word ppt i) in
    let shared = store (word ppt i) (read_only e) (store (word pt i) (read_only e) p) in
    if present e then ref_inc (read_only e / 0x1000) shared else p

unfoldable pub paging_fork_addr_space : ℕ → Paging → ℕ × Paging
paging_fork_addr_space parent p =
    let ppde = load p (word parent 0) in
    let ppt = frame_of ppde in
    let (done, pd, pt, p1) = take_two p in
    let p2 = copy_page pt ppt (copy_page pd parent p1) in
    let p3 = for_range (user_pg_end - user_pg_start) user_pg_start (share_page ppt pt) p2 in
    if not (is_direct parent)
    then (0, astray p)
    else if not (present ppde)
    then (0, p)
    else if not done
    then (0, p1)
    else if is_direct ppt && is_direct pd && is_direct pt
    then (pd, store (word pd 0) (pt + 7) p3)
    else (0, astray p1)

-- if (pte[i] & PTE_P) mm_ref_dec(pte[i] >> 12)
unfoldable pub release_page : ℕ → ℕ → Paging → Paging
release_page pt i p = let e = load p (word pt i) in if present e then ref_dec (e / 0x1000) p else p

-- One round of the loop over the directory.
unfoldable pub release_table : ℕ → ℕ → Paging → Paging
release_table cr3 d p =
    let pde = load p (word cr3 d) in
    let pt = frame_of pde in
    let freed = for_range (user_pg_end - user_pg_start) user_pg_start (release_page pt) p in
    if not (present pde) || pt == kernel_pt || pt == kernel_pd
    then p
    else if not (is_direct pt)
    then astray p
    else record freed { mm = frame_free pt freed.mm }

unfoldable pub paging_destroy_addr_space : ℕ → Paging → Paging
paging_destroy_addr_space cr3 p =
    let q = for_range 1024 0 (release_table cr3) p in
    if cr3 == kernel_pd
    then p
    else if not (is_direct cr3)
    then astray p
    else record q { mm = frame_free cr3 q.mm }

-- the address of the entry that maps an address, through a directory entry
abbrev pub pte_address : ℕ → ℕ → ℕ
pte_address pde a = word (frame_of pde) (a / 0x1000 % 1024)

unfoldable pub paging_cow_fault : ℕ → ℕ → Paging → Bool × Paging
paging_cow_fault cr2 err p =
    let pde = load p (word p.cr3 (cr2 / 0x400000 % 1024)) in
    let at = pte_address pde cr2 in
    let pte = load p at in
    let old = frame_of pte in
    let (nf, p1) = take_frame p in
    let p2 = store at (nf + 7) (copy_page nf old p1) in
    if not (user err)
    then (false, p)
    else if not (writable err)
    then (false, p)
    else if not (is_direct p.cr3)
    then (false, astray p)
    else if not (present pde)
    then (false, p)
    else if not (is_direct (frame_of pde))
    then (false, astray p)
    else if not (present pte)
    then (false, p)
    else if writable pte
    then (false, p)
    else if nf == 0
    then (false, p1)
    else if not (is_direct nf && is_direct old)
    then (false, astray p1)
    else (true, ref_inc (nf / 0x1000) (ref_dec (old / 0x1000) p2))
