-- ===== src/Paging/Isolate.antt =====
-- A write after the copy-on-write fault of kernel/paging.c stays in its own address space.
use nova_kernel.Prelude.{
  ℕ, ◌+◌, ◌*◌, ◌/◌, ◌%◌, ◌<◌, ◌≡◌, true, false, ◌==◌, arith, inl, inr, ◌∙◌, ap,
}
use nova_kernel.Paging.{Paging, frame_of, word, load, store, paging_cow_fault}
use nova_kernel.Mm.Refs.{IsValid}
use nova_kernel.Paging.Tables.{Apart, Held}
use nova_kernel.Paging.Fork.{table, entry, IsSpace}
use nova_kernel.Paging.Cow.{Copied, fault_entry, cow_fault-Copied}

-- the word at `k` of the page `i` of an address space
abbrev pub reads : Paging → ℕ → ℕ → ℕ → ℕ
reads p cr3 i k = load p (frame_of (entry p cr3 i) + k)

-- The page `i` of the space `c`: its directory, table and frame are in use, and none of them is the
-- page table `pt`.
pub record Beside (p : Paging) (c pt i : ℕ) : Type 0 where
  pub directory : Held p.mm c
  pub table_held : Held p.mm (table p c)
  pub page_held : Held p.mm (frame_of (entry p c i))
  pub directory_apart : Apart c pt
  pub table_apart : Apart (table p c) pt
  pub page_apart : Apart (frame_of (entry p c i)) pt

-- a store at `k` of the page that has been copied
abbrev pub write_copy : ℕ → ℕ → ℕ → Paging → Paging → Paging
write_copy a k value p p' = store (frame_of (load p' (fault_entry p a)) + k) value p'

module _ (a nf k value c i : ℕ) (p p' : Paging) (low : a < 0x400000) (lt : k < 0x1000)
    (held : Held p.mm (table p p.cr3)) (w : Copied a nf p p')
    (b : Beside p c (table p p.cr3) i) where
  abbrev written : Paging
  written = store (nf + k) value p'

  page_kept :
      (x y : ℕ)
      → Held p.mm x
      → Apart x (table p p.cr3)
      → y < 0x1000
      → load written (x + y) ≡ load p (x + y)
  page_kept x y h far hy =
      let pr = w.private x h in
      let al = h.aligned in
      let na = w.aligned in
      let ta = held.aligned in
      let at : fault_entry p a ≡ word (table p p.cr3) (a / 0x1000 % 1024) =
        let z : a / 0x400000 % 1024 ≡ 0 = omega arith in rw (z) in
      let e = w.elsewhere (x + y) (λ q. let q' = q ∙ at in ground arith) (ground arith) in
      let miss : nf + k == x + y ≡ false = ground arith in rw (miss) e

  other_kept : (y : ℕ) → i < 1024 → y < 0x1000 → reads written c i y ≡ reads p c i y
  other_kept y hi hy =
      let d = page_kept c 0 b.directory b.directory_apart (omega arith) in
      let e : entry written c i ≡ entry p c i =
        ap (λ (t : ℕ). load written (word (frame_of t) i)) d
        ∙ page_kept (table p c) (i * 4) b.table_held b.table_apart (omega arith) in
      ap (λ (t : ℕ). load written (frame_of t + y)) e
      ∙ page_kept (frame_of (entry p c i)) y b.page_held b.page_apart hy

  own_written : IsSpace p p.cr3 → reads written p.cr3 (a / 0x1000) k ≡ value
  own_written sp =
      let d = page_kept p.cr3 0 sp.directory sp.differ (omega arith) in
      let at : fault_entry p a ≡ word (table p p.cr3) (a / 0x1000) =
        let z : a / 0x400000 % 1024 ≡ 0 = omega arith in
        let y : a / 0x1000 % 1024 ≡ a / 0x1000 = omega arith in rw (z, y) in
      let na = w.aligned in
      let ta = held.aligned in
      let pr = w.private (table p p.cr3) held in
      let miss : nf + k == word (table p p.cr3) (a / 0x1000) ≡ false = ground arith in
      let e : entry written p.cr3 (a / 0x1000) ≡ nf + 7 =
        ap (λ (t : ℕ). load written (word (frame_of t) (a / 0x1000))) d
        ∙ (rw (miss, ← at) w.entry) in
      let own : frame_of (nf + 7) ≡ nf = omega arith in
      ap (λ (t : ℕ). load written (frame_of t + k)) e ∙ (rw (own) ground arith)

-- After a write fault that has been handled without following an address in the window of user
-- programs, a store to the page at any offset is read back in the faulting address space, and the words of the other space's page are as they were before the fault.
-- Both spaces have their tables in frames in use, and the other space's directory, table and page are
-- not the page table of the faulting space.
pub write_isolated :
    (a err k value c i y : ℕ) (p : Paging)
    → IsValid p.mm
    → IsSpace p p.cr3
    → Beside p c (table p p.cr3) i
    → a < 0x400000
    → k < 0x1000
    → i < 1024
    → y < 0x1000
    → (paging_cow_fault a err p).0 ≡ true
    → (paging_cow_fault a err p).1.stray ≡ false
    → (reads (write_copy a k value p (paging_cow_fault a err p).1) p.cr3 (a / 0x1000) k ≡ value)
      × (reads (write_copy a k value p (paging_cow_fault a err p).1) c i y ≡ reads p c i y)
write_isolated a err k value c i y p v sp b low lt hi hy done on_map =
    let z : a / 0x400000 % 1024 ≡ 0 = omega arith in
    elim (cow_fault-Copied a err p v (rw (z) sp.table_held) on_map) [
      | inl refused ↦ let off = refused.0 in absurd (ground arith)
      | inr good ↦
          let w = good.2 in
          let p' = (paging_cow_fault a err p).1 in
          let al = w.aligned in
          let at : frame_of (load p' (fault_entry p a)) ≡ good.0 =
            ap frame_of w.entry ∙ omega arith in
          rw (at) (
            own_written a good.0 k value c i p p' low lt sp.table_held w b sp,
            other_kept a good.0 k value c i p p' low lt sp.table_held w b y hi hy,
          )
    ]
