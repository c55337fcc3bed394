-- ===== src/Paging/Tests.antt =====
-- Runs and witnesses of the address spaces, on the frames that `mm_init` leaves.
use nova_kernel.Prelude.{
  ℕ, ◌/◌, ◌%◌, ◌<◌, ◌≡◌, refl, true, false, ◌==◌, if◌then◌else◌, arith, inl, inr, ◌⊎◌,
}
use nova_kernel.Mm.{mm_init, frame_alloc}
use nova_kernel.Mm.Alloc.{frame_alloc-lowest, frame_alloc-Fresh}
use nova_kernel.Mm.Init.{mm_init-IsValid, is_used-mm_init}
use nova_kernel.Paging.{Paging, take_two, paging_fork_addr_space, paging_cow_fault}
use nova_kernel.Paging.Tables.{Held}
use nova_kernel.Paging.Fork.{IsSpace, Forked, fork-Forked, fork_on_map}
use nova_kernel.Paging.Cow.{Copied, cow_fault-Copied}
use nova_kernel.Paging.Isolate.{Beside, reads, write_copy, write_isolated}

-- Two spaces with directories at 0x9000 and 0xB000 share the page at 0x20000, read-only, as their
-- page 512.
abbrev tables : ℕ → ℕ
tables a =
    if a == 0x9000
    then 0xA007
    else if a == 0xB000
    then 0xC007
    else if a == 0xA800
    then 0x20005
    else if a == 0xC800
    then 0x20005
    else 0

abbrev shared : Paging
shared = record { memory = tables; mm = mm_init; cr3 = 0x9000; stray = false }

low-Held : (a : ℕ) → a % 0x1000 ≡ 0 → a < 0x100000 → Held mm_init a
low-Held a al lt = record {
  aligned = al;
  used = let u = is_used-mm_init (a / 0x1000) (omega arith) in ground arith;
}

shared-IsSpace : IsSpace shared 0x9000
shared-IsSpace = record {
  directory = low-Held 0x9000 refl (omega arith);
  table_held = low-Held 0xA000 refl (omega arith);
  differ = inl (omega arith);
  here = refl;
}

first_frame : (frame_alloc mm_init).0 ≡ 0x130000
first_frame =
    frame_alloc-lowest mm_init 304 (omega arith)
      (λ j a b. let u = is_used-mm_init j (omega arith) in ground arith)
      (let u = is_used-mm_init 304 (omega arith) in ground arith)

next_frame : (frame_alloc (frame_alloc mm_init).1).0 ≡ 0x131000
next_frame =
    let e = first_frame in
    let f = frame_alloc-Fresh mm_init mm_init-IsValid.0.bytes (omega (arith, e)) in
    frame_alloc-lowest (frame_alloc mm_init).1 305 (omega arith)
      (λ j a b. let u = is_used-mm_init j (omega arith) in let k = f.marked j in ground arith)
      (let u = is_used-mm_init 305 (omega arith) in let k = f.marked 305 in ground arith)

two_frames : ((take_two shared).1 ≡ 0x130000) × ((take_two shared).2 ≡ 0x131000)
unfolding take_two
two_frames = let a = first_frame in let b = next_frame in (ground arith, ground arith)

fork_stays : (paging_fork_addr_space 0x9000 shared).1.stray ≡ false
fork_stays =
    let t = two_frames in fork_on_map 0x9000 shared refl refl refl (rw (t.0) refl) (rw (t.1) refl)

fork-Forked_example :
    (((paging_fork_addr_space 0x9000 shared).0 ≡ 0)
      × ((paging_fork_addr_space 0x9000 shared).1.memory ≡ tables))
    ⊎ Forked 0x9000
        (paging_fork_addr_space 0x9000 shared).0
        shared
        (paging_fork_addr_space 0x9000 shared).1
fork-Forked_example = fork-Forked 0x9000 shared mm_init-IsValid.0 shared-IsSpace fork_stays

fault_stays : (paging_cow_fault 0x200010 7 shared).1.stray ≡ false
unfolding paging_cow_fault
fault_stays = let e = first_frame in ground arith

cow_fault-Copied_example :
    (((paging_cow_fault 0x200010 7 shared).0 ≡ false)
      × ((paging_cow_fault 0x200010 7 shared).1.memory ≡ tables))
    ⊎ ((nf : ℕ) × ((paging_cow_fault 0x200010 7 shared).0 ≡ true)
        × Copied 0x200010 nf shared (paging_cow_fault 0x200010 7 shared).1)
cow_fault-Copied_example =
    cow_fault-Copied 0x200010 7 shared mm_init-IsValid.0 (low-Held 0xA000 refl (omega arith))
      fault_stays

handled : (paging_cow_fault 0x200010 7 shared).0 ≡ true
unfolding paging_cow_fault
handled = let e = first_frame in ground arith

other-Beside : Beside shared 0xB000 0xA000 512
other-Beside = record {
  directory = low-Held 0xB000 refl (omega arith);
  table_held = low-Held 0xC000 refl (omega arith);
  page_held = low-Held 0x20000 refl (omega arith);
  directory_apart = inr (omega arith);
  table_apart = inr (omega arith);
  page_apart = inr (omega arith);
}

write_isolated_example :
    (reads (write_copy 0x200010 16 99 shared (paging_cow_fault 0x200010 7 shared).1) 0x9000 512 16
      ≡ 99)
    × (reads (write_copy 0x200010 16 99 shared (paging_cow_fault 0x200010 7 shared).1) 0xB000 512 16
        ≡ reads shared 0xB000 512 16)
write_isolated_example =
    write_isolated 0x200010 7 16 99 0xB000 512 16 shared mm_init-IsValid.0 shared-IsSpace
      other-Beside (omega arith) (omega arith) (omega arith) (omega arith) handled fault_stays
