-- ===== src/Paging/Fork.antt =====
-- The fork of an address space, kernel/paging.c.
use nova_kernel.Prelude.{
  ℕ, ◌+◌, ◌-◌, ◌*◌, ◌/◌, ◌%◌, ◌<◌, ◌≤◌, ◌≡◌, ◌≢◌, refl, Bool, true, false, ◌&&◌, ◌||◌, leb, ltb,
  ◌==◌, if◌then◌else◌, for_range, for_range_inv, arith, Bool-cases, inl, inr, ◌⊎◌, ◌∙◌, sym, ap,
}
use nova_kernel.Paging.{
  Paging, astray, is_direct, present, frame_of, read_only, word, load, store, copy_page, share_page,
  take_two, paging_fork_addr_space,
}
use nova_kernel.Paging.Tables.{Apart, Held, Two, take_two-Two, Held-Apart}
use nova_kernel.Mm.Refs.{IsValid}

-- what the fork makes of an entry
unfoldable pub downgrade : ℕ → ℕ
downgrade e = if present e then read_only e else e

-- the words of the entries 512..k of a table
abbrev pub entries : ℕ → ℕ → ℕ → Bool
entries base k a = leb (base + 2048) a && ltb a (base + k * 4) && a % 4 == 0

-- one round of the loop, when both tables have the same entry
share_page-memory :
    (ppt pt k : ℕ) (q : Paging) (a : ℕ)
    → q.memory (word pt k) ≡ q.memory (word ppt k)
    → (share_page ppt pt k q).memory a ≡ (
        if word ppt k == a || word pt k == a then downgrade (q.memory (word ppt k)) else q.memory a)
unfolding share_page downgrade
share_page-memory ppt pt k q a h = elim (Bool-cases (present (q.memory (word ppt k)))) [
  | inl on ↦ rw (on) (ground arith)
  | inr off ↦ rw (off) (ground arith)
]

regroup :
    (p r x y : Bool) (d0 d1 m : ℕ)
    → (p ≡ true → d0 ≡ d1)
    → (r ≡ true → d0 ≡ d1)
    → (if p || r then d0 else if x || y then d1 else m) ≡ (if (x || r) || (y || p) then d1 else m)
regroup p r x y d0 d1 m hp hr = ground arith

entries-suc :
    (base k a : ℕ)
    → base % 0x1000 ≡ 0
    → 512 ≤ k
    → entries base (k + 1) a ≡ (entries base k a || word base k == a)
entries-suc base k a al lo = ground arith

module _ (ppt pt : ℕ) (m0 : ℕ → ℕ) (a1 : ppt % 0x1000 ≡ 0) (a2 : pt % 0x1000 ≡ 0)
    (far : Apart ppt pt) (same : (j : ℕ) → j < 1024 → m0 (word pt j) ≡ m0 (word ppt j)) where
  -- the memory once the entries below `k` are shared
  abbrev Shared : ℕ → Paging → Type 0
  Shared k q =
      (a : ℕ) → q.memory a ≡ (if entries pt k a || entries ppt k a then downgrade (m0 a) else m0 a)

  share_page-Shared :
      (k : ℕ) (q : Paging) → 512 ≤ k → k < 768 → Shared k q → Shared (k + 1) (share_page ppt pt k q)
  share_page-Shared k q lo hi inv a =
      let e1 : q.memory (word ppt k) ≡ m0 (word ppt k) = inv (word ppt k) ∙ ground arith in
      let e2 : q.memory (word pt k) ≡ m0 (word pt k) = inv (word pt k) ∙ ground arith in
      let s = same k (omega arith) in
      let step = share_page-memory ppt pt k q a (e2 ∙ s ∙ sym e1) in
      let n1 = entries-suc pt k a a2 lo in
      let n2 = entries-suc ppt k a a1 lo in
      step
      ∙ (rw (e1, inv a, n1, n2)
          (regroup (word ppt k == a) (word pt k == a) (entries pt k a) (entries ppt k a)
            (downgrade (m0 (word ppt k))) (downgrade (m0 a)) (m0 a)
            (λ p. let q : word ppt k ≡ a = ground arith in rw (q) refl)
            (λ r. let q : word pt k ≡ a = ground arith in ap downgrade (sym s) ∙ (rw (q) refl))))

  share_all-Shared :
      (q : Paging) → q.memory ≡ m0 → Shared 768 (for_range 256 512 (share_page ppt pt) q)
  share_all-Shared q e =
      for_range_inv Shared (share_page ppt pt) 512 768 256 q (omega arith) share_page-Shared
        (λ a. ap (λ (m : ℕ → ℕ). m a) e ∙ ground arith)

-- The loop leaves CR3 alone.
share_all-cr3 : (ppt pt : ℕ) (q : Paging) → (for_range 256 512 (share_page ppt pt) q).cr3 ≡ q.cr3
share_all-cr3 ppt pt q =
    for_range_inv (λ k t. t.cr3 ≡ q.cr3) (share_page ppt pt) 512 768 256 q (omega arith)
      (λ k t lo hi h. unfold share_page in ground arith) refl

share_all-stray :
    (ppt pt : ℕ) (q : Paging) → (for_range 256 512 (share_page ppt pt) q).stray ≡ q.stray
share_all-stray ppt pt q =
    for_range_inv (λ k t. t.stray ≡ q.stray) (share_page ppt pt) 512 768 256 q (omega arith)
      (λ k t lo hi h. unfold share_page in ground arith) refl

-- the directory's first table, and the entry of a page in it
abbrev pub table : Paging → ℕ → ℕ
table p cr3 = frame_of (load p (word cr3 0))

abbrev pub entry : Paging → ℕ → ℕ → ℕ
entry p cr3 i = load p (word (table p cr3) i)

-- What a successful fork leaves, for the child's directory `pd`: each user page has the same entry in
-- both spaces, read-only if it is present, and with the same frame as before; each kernel page of the
-- child is the parent's; and no word outside the two new tables and the user entries of the parent's
-- table has changed, so no page has other contents.
pub record Forked (parent pd : ℕ) (p p' : Paging) : Type 0 where
  pub child : (i : ℕ) → i < 1024 → entry p' pd i ≡ entry p' parent i
  pub shared : (i : ℕ) → 512 ≤ i → i < 768 → entry p' parent i ≡ downgrade (entry p parent i)
  pub kernel : (i : ℕ) → i < 1024 → (i < 512) ⊎ (768 ≤ i) → entry p' parent i ≡ entry p parent i
  pub elsewhere :
      (a : ℕ)
      → (a < table p parent + 2048) ⊎ (table p parent + 3072 ≤ a)
      → (a / 0x1000 ≢ pd / 0x1000)
      → (a / 0x1000 ≢ table p' pd / 0x1000)
      → p'.memory a ≡ p.memory a
  pub own_table : table p' parent ≡ table p parent
  pub cr3 : p'.cr3 ≡ p.cr3

-- A directory and its first table are frames in use and different.
pub record IsSpace (p : Paging) (cr3 : ℕ) : Type 0 where
  pub directory : Held p.mm cr3
  pub table_held : Held p.mm (table p cr3)
  pub differ : Apart cr3 (table p cr3)
  pub here : present (load p (word cr3 0)) ≡ true

-- Four pages apart from each other: the directory and the table of the parent, and the new ones.
record Layout (parent pd pt ppt : ℕ) : Type 0 where
  pub a1 : parent % 0x1000 ≡ 0
  pub a2 : pd % 0x1000 ≡ 0
  pub a3 : pt % 0x1000 ≡ 0
  pub a4 : ppt % 0x1000 ≡ 0
  pub d1 : Apart parent pd
  pub d2 : Apart parent pt
  pub d3 : Apart parent ppt
  pub d4 : Apart ppt pd
  pub d5 : Apart ppt pt
  pub d6 : Apart pd pt

-- The memory of a fork, step by step, as a function.
module _ (pm : ℕ → ℕ) (parent pd pt ppt : ℕ) where
  abbrev copied_pd : ℕ → ℕ
  copied_pd a = if leb pd a && ltb a (pd + 0x1000) then pm (parent + (a - pd)) else pm a

  abbrev copied : ℕ → ℕ
  copied a = if leb pt a && ltb a (pt + 0x1000) then copied_pd (ppt + (a - pt)) else copied_pd a

  abbrev shared_memory : ℕ → ℕ
  shared_memory a = if entries pt 768 a || entries ppt 768 a then downgrade (copied a) else copied a

  abbrev final : ℕ → ℕ
  final a = if word pd 0 == a then pt + 7 else shared_memory a

  final_pd : final (word pd 0) ≡ pt + 7
  final_pd = ground arith

  module _ (l : Layout parent pd pt ppt) where
    copied_at :
        (i : ℕ)
        → i < 1024
        → (copied (word pt i) ≡ pm (word ppt i)) × (copied (word ppt i) ≡ pm (word ppt i))
    copied_at i h = (ground arith, ground arith)

    final_parent : final (word parent 0) ≡ pm (word parent 0)
    final_parent = ground arith

    final_user :
        (i : ℕ)
        → 512 ≤ i
        → i < 768
        → (final (word pt i) ≡ downgrade (pm (word ppt i)))
          × (final (word ppt i) ≡ downgrade (pm (word ppt i)))
    final_user i lo hi = let c = copied_at i (omega arith) in (ground arith, ground arith)

    final_kernel :
        (i : ℕ)
        → i < 1024
        → (i < 512) ⊎ (768 ≤ i)
        → (final (word pt i) ≡ pm (word ppt i)) × (final (word ppt i) ≡ pm (word ppt i))
    final_kernel i lt out = let c = copied_at i (omega arith) in (ground arith, ground arith)

    final_elsewhere :
        (a : ℕ)
        → (a < ppt + 2048) ⊎ (ppt + 3072 ≤ a)
        → (a / 0x1000 ≢ pd / 0x1000)
        → (a / 0x1000 ≢ pt / 0x1000)
        → final a ≡ pm a
    final_elsewhere a out n1 n2 = ground arith

-- frame_of (a + 7) = a for the address of a page
frame_of-table : (a : ℕ) → a % 0x1000 ≡ 0 → frame_of (a + 7) ≡ a
frame_of-table a h = omega arith

abbrev forked_state : ℕ → ℕ → ℕ → ℕ → Paging → Paging
forked_state parent pd pt ppt p1 =
    store (word pd 0) (pt + 7)
      (for_range 256 512 (share_page ppt pt) (copy_page pt ppt (copy_page pd parent p1)))

module _ (parent pd pt : ℕ) (p p1 : Paging) (sp : IsSpace p parent) (t : Two p pd pt p1) where
  abbrev ppt : ℕ
  ppt = table p parent

  layout : Layout parent pd pt ppt
  layout = record {
    a1 = sp.directory.aligned;
    a2 = t.pd_aligned;
    a3 = t.pt_aligned;
    a4 = sp.table_held.aligned;
    d1 = Held-Apart sp.directory t.pd_aligned t.pd_free;
    d2 = Held-Apart sp.directory t.pt_aligned t.pt_free;
    d3 = sp.differ;
    d4 = Held-Apart sp.table_held t.pd_aligned t.pd_free;
    d5 = Held-Apart sp.table_held t.pt_aligned t.pt_free;
    d6 = t.differ;
  }

  result_memory :
      (a : ℕ) → (forked_state parent pd pt ppt p1).memory a ≡ final p.memory parent pd pt ppt a
  result_memory a =
      let same = λ (j : ℕ) (h : j < 1024).
        let c = copied_at p1.memory parent pd pt ppt layout j h in c.0 ∙ sym c.1 in
      let h =
        share_all-Shared ppt pt (copied p1.memory parent pd pt ppt) sp.table_held.aligned
          t.pt_aligned layout.d5 same (copy_page pt ppt (copy_page pd parent p1)) refl a in
      ap (λ (x : ℕ). if word pd 0 == a then pt + 7 else x) h
      ∙ ap (λ (m : ℕ → ℕ). final m parent pd pt ppt a) t.memory

  forked : Forked parent pd p (forked_state parent pd pt ppt p1)
  forked =
      let p' = forked_state parent pd pt ppt p1 in
      let m = p.memory in
      let own : table p' parent ≡ ppt =
        ap frame_of (result_memory (word parent 0) ∙ final_parent m parent pd pt ppt layout) in
      let its : table p' pd ≡ pt =
        ap frame_of (result_memory (word pd 0) ∙ final_pd m parent pd pt ppt)
        ∙ frame_of-table pt t.pt_aligned in
      let user = final_user m parent pd pt ppt layout in
      let kern = final_kernel m parent pd pt ppt layout in
      let child_at : (i : ℕ) → entry p' pd i ≡ final m parent pd pt ppt (word pt i) =
        λ i. ap (λ (b : ℕ). load p' (word b i)) its ∙ result_memory (word pt i) in
      let own_at : (i : ℕ) → entry p' parent i ≡ final m parent pd pt ppt (word ppt i) =
        λ i. ap (λ (b : ℕ). load p' (word b i)) own ∙ result_memory (word ppt i) in
      let same_entry : (i : ℕ)
          → i < 1024
          → final m parent pd pt ppt (word pt i) ≡ final m parent pd pt ppt (word ppt i) =
        λ i h. elim (Bool-cases (leb 512 i && ltb i 768)) [
          | inl inside ↦ let u = user i (ground arith) (ground arith) in u.0 ∙ sym u.1
          | inr out ↦ let k = kern i h (ground arith) in k.0 ∙ sym k.1
        ] in
      record {
        child = λ i h. child_at i ∙ same_entry i h ∙ sym (own_at i);
        shared = λ i lo hi. own_at i ∙ (user i lo hi).1;
        kernel = λ i h out. own_at i ∙ (kern i h out).1;
        elsewhere = λ a out n1 n2.
            result_memory a
            ∙ final_elsewhere m parent pd pt ppt layout a out n1
                (λ e. n2 (e ∙ ap (λ (x : ℕ). x / 0x1000) (sym its)));
        own_table = own;
        cr3 = share_all-cr3 ppt pt _ ∙ t.cr3;
      }

take_two_memory : (p : Paging) → (take_two p).3.memory ≡ p.memory
unfolding take_two
take_two_memory p = ground arith

-- In a valid state of the allocator, a fork of an address space whose directory and table are frames
-- in use, in a run that follows no address in the window of user programs, either returns 0 and
-- leaves memory as it is; or it returns a directory, with which both spaces map each page alike.
pub fork-Forked :
    (parent : ℕ) (p : Paging)
    → IsValid p.mm
    → IsSpace p parent
    → (paging_fork_addr_space parent p).1.stray ≡ false
    → (((paging_fork_addr_space parent p).0 ≡ 0)
        × ((paging_fork_addr_space parent p).1.memory ≡ p.memory))
      ⊎ Forked parent (paging_fork_addr_space parent p).0 p (paging_fork_addr_space parent p).1
unfolding paging_fork_addr_space astray
fork-Forked parent p v sp on_map =
    let two = take_two p in
    let first : is_direct parent ≡ true = elim (Bool-cases (is_direct parent)) [
      | inl yes_map ↦ yes_map
      | inr off ↦ absurd (ground arith)
    ] in
    elim (Bool-cases two.0) [
      | inr fails ↦ rw (first, sp.here, fails) (inl (refl, take_two_memory p))
      | inl done ↦
          elim (Bool-cases (is_direct (table p parent) && is_direct two.1 && is_direct two.2)) [
            | inl all ↦
                let d1 : is_direct (table p parent) ≡ true = ground arith in
                let d2 : is_direct two.1 ≡ true = ground arith in
                let d3 : is_direct two.2 ≡ true = ground arith in
                rw (first, sp.here, done, d1, d2, d3)
                  (inr (forked parent _ _ p _ sp (take_two-Two p v done)))
            | inr off ↦ let here = sp.here in absurd (ground arith)
          ]
    ]

-- A fork whose tables can be reached does not go astray.
pub fork_on_map :
    (parent : ℕ) (p : Paging)
    → p.stray ≡ false
    → is_direct parent ≡ true
    → is_direct (table p parent) ≡ true
    → is_direct (take_two p).1 ≡ true
    → is_direct (take_two p).2 ≡ true
    → (paging_fork_addr_space parent p).1.stray ≡ false
unfolding paging_fork_addr_space take_two
fork_on_map parent p s d1 d2 d3 d4 =
    let q = (take_two p).3 in
    let pd = (take_two p).1 in
    let pt = (take_two p).2 in
    let k =
      share_all-stray (table p parent) pt (copy_page pt (table p parent) (copy_page pd parent q)) in
    ground arith
