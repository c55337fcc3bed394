-- ===== src/Paging/Tables.antt =====
-- Two frames for the tables of an address space, and the pages of memory, kernel/paging.c.
use nova_kernel.Prelude.{
  ℕ, ◌+◌, ◌/◌, ◌%◌, ◌≤◌, ◌≡◌, ◌≢◌, refl, true, false, ◌||◌, ◌==◌, arith, ◌⊎◌, ◌∙◌,
}
use nova_kernel.Mm.{Mm, is_used}
use nova_kernel.Mm.Alloc.{frame_alloc-Fresh}
use nova_kernel.Mm.Refs.{IsValid, frame_alloc-IsValid}
use nova_kernel.Paging.{Paging, take_two, take_frame}

-- Two pages have no address in common.
abbrev pub Apart : ℕ → ℕ → Type 0
Apart a b = (a + 0x1000 ≤ b) ⊎ (b + 0x1000 ≤ a)

-- a frame in use, by its address
pub record Held (m : Mm) (a : ℕ) : Type 0 where
  pub aligned : a % 0x1000 ≡ 0
  pub used : is_used m (a / 0x1000) ≡ true

-- Two new frames, apart from each other and from every frame that was in use.
pub record Two (p : Paging) (pd pt : ℕ) (p' : Paging) : Type 0 where
  pub pd_aligned : pd % 0x1000 ≡ 0
  pub pt_aligned : pt % 0x1000 ≡ 0
  pub pd_free : is_used p.mm (pd / 0x1000) ≡ false
  pub pt_free : is_used p.mm (pt / 0x1000) ≡ false
  pub differ : Apart pd pt
  pub pd_used : is_used p'.mm (pd / 0x1000) ≡ true
  pub pt_used : is_used p'.mm (pt / 0x1000) ≡ true
  pub keeps : (j : ℕ) → is_used p.mm j ≡ true → is_used p'.mm j ≡ true
  pub memory : p'.memory ≡ p.memory
  pub refs : p'.mm.frame_refs ≡ p.mm.frame_refs
  pub valid : IsValid p'.mm
  pub cr3 : p'.cr3 ≡ p.cr3

pub take_two-Two :
    (p : Paging)
    → IsValid p.mm
    → (take_two p).0 ≡ true
    → Two p (take_two p).1 (take_two p).2 (take_two p).3
unfolding take_two
take_two-Two p v done =
    let p1 = (take_frame p).1 in
    let v1 = frame_alloc-IsValid v in
    let pd = (take_frame p).0 in
    let pt = (take_frame p1).0 in
    let both : pd == 0 || pt == 0 ≡ false = ground arith in
    let n1 : pd ≢ 0 = ground arith in
    let n2 : pt ≢ 0 = ground arith in
    let f = frame_alloc-Fresh p.mm v.bytes n1 in
    let g = frame_alloc-Fresh p1.mm v1.bytes n2 in
    let mf = f.marked in
    let mg = g.marked in
    let fresh : is_used p1.mm (pt / 0x1000) ≡ false = g.was_free in
    let other : pd / 0x1000 ≢ pt / 0x1000 = λ e.
      let h : is_used p1.mm (pd / 0x1000) ≡ true = mf (pd / 0x1000) ∙ ground arith in
      let k : is_used p1.mm (pd / 0x1000) ≡ false = rw (e) fresh in ground arith in
    let a1 = f.aligned in
    let a2 = g.aligned in
    rw (both) (record {
      pd_aligned = a1;
      pt_aligned = a2;
      pd_free = f.was_free;
      pt_free = let h = mf (pt / 0x1000) in ground arith;
      differ = ground arith;
      pd_used = let h = mf (pd / 0x1000) in let k = mg (pd / 0x1000) in ground arith;
      pt_used = let k = mg (pt / 0x1000) in ground arith;
      keeps = λ j h. let h1 = mf j in let k = mg j in ground arith;
      memory = refl;
      refs = g.refs ∙ f.refs;
      valid = frame_alloc-IsValid v1;
      cr3 = refl;
    })

-- A frame in use is apart from one that was free.
pub Held-Apart :
    {m : Mm} {a b : ℕ} → Held m a → b % 0x1000 ≡ 0 → is_used m (b / 0x1000) ≡ false → Apart a b
Held-Apart {m = m} {a = a} {b = b} h al free =
    let ha = h.aligned in
    let ne : a / 0x1000 ≢ b / 0x1000 =
      λ e. let k : is_used m (b / 0x1000) ≡ true = rw (← e) h.used in ground arith in
    ground arith
