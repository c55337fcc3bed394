-- ===== src/Paging/Cow.antt =====
-- The page fault that copies a shared page, kernel/paging.c.
use nova_kernel.Prelude.{
  ℕ, ◌+◌, ◌-◌, ◌/◌, ◌%◌, ◌<◌, ◌≡◌, ◌≢◌, refl, true, false, not, ◌&&◌, leb, ltb, ◌==◌, if◌then◌else◌,
  update, arith, Bool-cases, inl, inr, ◌⊎◌,
}
use nova_kernel.Mm.{frame_alloc, mm_ref_inc, mm_ref_dec}
use nova_kernel.Mm.Alloc.{Fresh, frame_alloc-Fresh}
use nova_kernel.Mm.Refs.{IsValid}
use nova_kernel.Paging.{
  Paging, astray, is_direct, present, writable, user, frame_of, word, load, store, copy_page,
  pte_address, paging_cow_fault, ref_inc, ref_dec,
}
use nova_kernel.Paging.Tables.{Apart, Held, Held-Apart}

-- the address of the entry that maps `a` in the space that is loaded
abbrev pub fault_entry : Paging → ℕ → ℕ
fault_entry p a = pte_address (load p (word p.cr3 (a / 0x400000 % 1024))) a

-- the page that is shared
abbrev pub old_page : Paging → ℕ → ℕ
old_page p a = frame_of (load p (fault_entry p a))

-- The page at `a` is now a new frame `nf` with the same contents, which was free and so is apart from
-- every frame in use; the entry maps it writable; no other word changes; and the counts move from the
-- old frame to the new.
pub record Copied (a nf : ℕ) (p p' : Paging) : Type 0 where
  pub was_shared : writable (load p (fault_entry p a)) ≡ false
  pub entry : load p' (fault_entry p a) ≡ nf + 7
  pub aligned : nf % 0x1000 ≡ 0
  pub contents : (k : ℕ) → k < 0x1000 → load p' (nf + k) ≡ load p (old_page p a + k)
  pub elsewhere : (x : ℕ) → x ≢ fault_entry p a → (x / 0x1000 ≢ nf / 0x1000) → load p' x ≡ load p x
  pub private : (x : ℕ) → Held p.mm x → Apart x nf
  pub cr3 : p'.cr3 ≡ p.cr3
  pub counts :
      p'.mm ≡ mm_ref_inc (nf / 0x1000) (mm_ref_dec (old_page p a / 0x1000) (frame_alloc p.mm).1)

abbrev copied_state : ℕ → ℕ → Paging → Paging
copied_state a nf p =
    let p1 = record p { mm = (frame_alloc p.mm).1 } in
    ref_inc (nf / 0x1000) (
      ref_dec (old_page p a / 0x1000)
        (store (fault_entry p a) (nf + 7) (copy_page nf (old_page p a) p1)))

-- the copy and the entry, on memory alone
module _ (m : ℕ → ℕ) (at nf old : ℕ) (far : Apart (frame_of at) nf) (al : nf % 0x1000 ≡ 0) where
  abbrev after_copy : ℕ → ℕ
  after_copy =
      update (λ x. if leb nf x && ltb x (nf + 0x1000) then m (old + (x - nf)) else m x) at (nf + 7)

  after_copy_contents : (k : ℕ) → k < 0x1000 → after_copy (nf + k) ≡ m (old + k)
  after_copy_contents k h =
      let e : nf + k - nf ≡ k = omega arith in
      let off : at == nf + k ≡ false = ground arith in
      let inside : leb nf (nf + k) && ltb (nf + k) (nf + 0x1000) ≡ true = ground arith in
      rw (off, inside, e)

  after_copy_elsewhere : (x : ℕ) → x ≢ at → (x / 0x1000 ≢ nf / 0x1000) → after_copy x ≡ m x
  after_copy_elsewhere x n1 n2 = ground arith

copied :
    (a : ℕ) (p : Paging)
    → Held p.mm (frame_of (load p (word p.cr3 (a / 0x400000 % 1024))))
    → Fresh p.mm (frame_alloc p.mm).0 (frame_alloc p.mm).1
    → writable (load p (fault_entry p a)) ≡ false
    → Copied a (frame_alloc p.mm).0 p (copied_state a (frame_alloc p.mm).0 p)
copied a p held f ro =
    let nf = (frame_alloc p.mm).0 in
    let far = Held-Apart held f.aligned f.was_free in
    let page : frame_of (fault_entry p a) ≡ frame_of (load p (word p.cr3 (a / 0x400000 % 1024))) =
      omega arith in
    let far' : Apart (frame_of (fault_entry p a)) nf = rw (page) far in
    record {
      was_shared = ro;
      entry = ground arith;
      aligned = f.aligned;
      contents = after_copy_contents p.memory (fault_entry p a) nf (old_page p a) far' f.aligned;
      elsewhere = after_copy_elsewhere p.memory (fault_entry p a) nf (old_page p a) far' f.aligned;
      private = λ x h. Held-Apart h f.aligned f.was_free;
      cr3 = refl;
      counts = refl;
    }

-- In a valid state of the allocator, where the page table of the faulting address is a frame in use,
-- a run of the handler that follows no address in the window of user programs either refuses and
-- leaves memory as it is, or it makes a private copy of the page.
pub cow_fault-Copied :
    (a err : ℕ) (p : Paging)
    → IsValid p.mm
    → Held p.mm (frame_of (load p (word p.cr3 (a / 0x400000 % 1024))))
    → (paging_cow_fault a err p).1.stray ≡ false
    → (((paging_cow_fault a err p).0 ≡ false) × ((paging_cow_fault a err p).1.memory ≡ p.memory))
      ⊎ ((nf : ℕ) × ((paging_cow_fault a err p).0 ≡ true)
          × Copied a nf p (paging_cow_fault a err p).1)
unfolding paging_cow_fault astray
cow_fault-Copied a err p v held on_map =
    let pde = load p (word p.cr3 (a / 0x400000 % 1024)) in
    let pte = load p (fault_entry p a) in
    let nf = (frame_alloc p.mm).0 in
    elim (Bool-cases (
      user err
      && writable err
      && is_direct p.cr3
      && present pde
      && is_direct (frame_of pde)
      && present pte
      && not (writable pte)
      && not (nf == 0)
      && is_direct nf
      && is_direct (old_page p a))) [
        | inl go ↦
            let c1 : user err ≡ true = ground arith in
            let c2 : writable err ≡ true = ground arith in
            let d1 : is_direct p.cr3 ≡ true = ground arith in
            let c3 : present pde ≡ true = ground arith in
            let d2 : is_direct (frame_of pde) ≡ true = ground arith in
            let c4 : present pte ≡ true = ground arith in
            let c5 : writable pte ≡ false = ground arith in
            let c6 : nf == 0 ≡ false = ground arith in
            let d3 : is_direct nf ≡ true = ground arith in
            let d4 : is_direct (old_page p a) ≡ true = ground arith in
            let f = frame_alloc-Fresh p.mm v.bytes (ground arith) in
            rw (c1, c2, d1, c3, d2, c4, c5, c6, d3, d4) (inr (nf, refl, copied a p held f c5))
        | inr stays ↦ inl (ground arith, ground arith)
      ]
