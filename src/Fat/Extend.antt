-- ===== src/Fat/Extend.antt =====
-- One more cluster for a chain that `fat_write` of kernel/fat.c has begun.
use nova_kernel.Prelude.{
  ℕ, ◌≡◌, ◌≢◌, refl, sym, ap, ◌∙◌, Bool, true, false, ◌||◌, arith, ◌==◌, if◌then◌else◌, Bool-cases,
  inl, inr, List, [], ◌∷◌, subst,
}
use nova_kernel.Fat.Disk.{Volume}
use nova_kernel.Fat.Table.{fat_next_cluster, fat_set}
use nova_kernel.Fat.Entry.{InTable, Written, fat_set-Written}
use nova_kernel.Fat.Chain.{elem}
use nova_kernel.Fat.Take.{Taken}
use nova_kernel.Fat.File.{Chaining, link}
use nova_kernel.Fat.Grow.{
  Grown, Numbered, follow, origin, new-elem, taken_entries, was_free, members, taken_outside,
}

-- the entries once the last cluster points to the new one
link_entries :
    (a b e : Bool) (n m k f old new : ℕ)
    → (a ≡ true → b ≡ false)
    → new ≡ (if a then m else if b || e then (if b then k else f) else old)
    → (if b then n else new)
      ≡ (if a || (b || e) then (if a then m else if b then n else f) else old)
link_entries true true e n m k f old new h q = let z = h refl in absurd (ground arith)
link_entries true false e n m k f old new h q = q
link_entries false true e n m k f old new h q = refl
link_entries false false true n m k f old new h q = q
link_entries false false false n m k f old new h q = q

origin_pos : (n : ℕ) (xs : List ℕ) → n ≢ 0 → ((x : ℕ) → elem x xs ≡ true → x ≢ 0) → origin n xs ≢ 0
origin_pos n [] hn h = hn
origin_pos n (x ∷ xs) hn h = origin_pos x xs (h x (ground arith)) (λ y e. h y (ground arith))

pub chain_first_pos :
    (v : Volume) (p : ℕ) (xs : List ℕ) (s : Chaining) → Grown v (p ∷ xs) s → s.first == 0 ≡ false
chain_first_pos v p xs s g =
    let mp = (g.members p (ground arith)).lo in
    let pos =
      origin_pos p xs (omega arith)
        (λ x h. let m = g.members x (ground arith) in let a = m.lo in omega arith) in
    let e = g.first in ground arith

set_entry :
    (p c d : ℕ) (v v' : Volume)
    → Written p c v v'
    → InTable v d
    → fat_next_cluster d v' ≡ (if d == p then c else fat_next_cluster d v)
set_entry p c d v v' w h = elim (Bool-cases (d == p)) [
  | inl same ↦
      let q : d ≡ p = ground arith in rw (same) (ap (λ x. fat_next_cluster x v') q ∙ w.entry)
  | inr other ↦ rw (other) (w.others d (ground arith) h)
]

pub grow_more :
    (v : Volume) (p : ℕ) (xs : List ℕ) (c : ℕ) (v1 : Volume) (s : Chaining)
    → Grown v (p ∷ xs) s
    → Numbered v c
    → Taken c s.volume v1
    → Grown v (c ∷ p ∷ xs) (link c v1 s)
grow_more v p xs c v1 s g num t =
    let np = g.members p (ground arith) in
    let lo = np.lo in
    let hc = num.hi in
    let prev : s.prev == 0 ≡ false = (let e = g.prev in ground arith) in
    let f = chain_first_pos v p xs s g in
    let ts : v1.fat_sectors ≡ v.fat_sectors = t.fat_sectors ∙ g.fat_sectors in
    let tl : v1.fat_lba ≡ v.fat_lba = t.fat_lba ∙ g.fat_lba in
    let w' =
      fat_set-Written s.prev c v1 t.good t.range (omega arith)
        (subst (InTable v1) (sym g.prev) (rw (ts) np.inside)) in
    let w : Written p c v1 (fat_set s.prev c v1).1 =
      subst (λ x. Written x c v1 (fat_set s.prev c v1).1) g.prev w'.1 in
    let out : elem c (p ∷ xs) ≡ false = new-elem v (p ∷ xs) s c v1 g num t in
    rw (prev, f)
      (record {
        first = g.first;
        prev = refl;
        entries = λ d h.
            set_entry p c d v1 _ w (rw (ts) h)
            ∙ link_entries (d == c) (d == p) (elem d xs) c 0xFFF 0xFFF (follow p xs d)
                (fat_next_cluster d v) (fat_next_cluster d v1) (λ e. ground arith)
                (taken_entries v (p ∷ xs) s c v1 g num t d h);
        free = was_free v (p ∷ xs) s c v1 g num t;
        members = members v (p ∷ xs) s c v1 g num t;
        apart = (let a = g.apart in ground arith);
        outside = λ k h av.
            w.outside k (inr (omega (arith, h, ts, tl)))
            ∙ taken_outside v (p ∷ xs) s c v1 g num t k h av;
        fat_lba = w.fat_lba ∙ t.fat_lba ∙ g.fat_lba;
        fat_sectors = w.fat_sectors ∙ t.fat_sectors ∙ g.fat_sectors;
        spc = w.spc ∙ t.spc ∙ g.spc;
        data_lba = w.data_lba ∙ t.data_lba ∙ g.data_lba;
        good = w.good;
        range = w.range;
      })
