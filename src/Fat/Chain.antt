-- ===== src/Fat/Chain.antt =====
-- The chains of clusters of kernel/fat.c: freeing one, and taking a free cluster.
use nova_kernel.Prelude.{
  ◌&&◌, ℕ, zero, suc, ◌<◌, ◌≤◌, ◌≡◌, refl, ◌∙◌, Bool, true, false, not, arith, ◌==◌, if◌then◌else◌,
  Bool-cases, inl, inr, ◌⊎◌, List, [], ◌∷◌, leb, ltb, length, ◌||◌,
}
use nova_kernel.Fat.Disk.{Volume}
use nova_kernel.Fat.Table.{fat_next_cluster, fat_set, free_chain, fat_free_chain}
use nova_kernel.Fat.Bytes.{IsGood, IsBytes}
use nova_kernel.Fat.Entry.{InTable, Written, fat_set-Written}

abbrev pub elem : ℕ → List ℕ → Bool
elem d [] = false
elem d (c ∷ cs) = d == c || elem d cs

abbrev pub distinct : List ℕ → Bool
distinct [] = true
distinct (c ∷ cs) = not (elem c cs) && distinct cs

-- The clusters from `c` on are `cs`, and the last entry ends the chain.
abbrev pub IsChain : Volume → ℕ → List ℕ → Type 0
IsChain v c [] = (c < 2) ⊎ (0xFF0 ≤ c)
IsChain v c (d ∷ ds) =
    (c ≡ d) × (2 ≤ d) × (d < 0xFF0) × InTable v d × IsChain v (fat_next_cluster d v) ds

-- A write to a cluster outside the chain leaves it the chain.
IsChain-frame :
    (x value : ℕ) (v v' : Volume) (c : ℕ) (cs : List ℕ)
    → Written x value v v'
    → elem x cs ≡ false
    → IsChain v c cs
    → IsChain v' c cs
IsChain-frame x value v v' c [] w out h = h
IsChain-frame x value v v' c (d ∷ ds) w out (e, lo, hi, t, h) =
    let rest = IsChain-frame x value v v' (fat_next_cluster d v) ds w (ground arith) h in
    let q = w.others d (ground arith) t in (e, lo, hi, rw (w.fat_sectors) t, rw (q) rest)

-- What freeing `cs` makes of the volume.
pub record Freed (cs : List ℕ) (v v' : Volume) : Type 0 where
  pub entries :
      (d : ℕ)
      → InTable v d
      → fat_next_cluster d v' ≡ (if elem d cs then 0 else fat_next_cluster d v)
  pub good : IsGood v'
  pub range : IsBytes v'
  pub fat_sectors : v'.fat_sectors ≡ v.fat_sectors

if_same : (b : Bool) → ◌≡◌ {A = ℕ} (if b then 0 else 0) 0
if_same true = refl
if_same false = refl

Freed-cons :
    (d : ℕ) (ds : List ℕ) (v v1 v2 : Volume)
    → Written d 0 v v1
    → Freed ds v1 v2
    → Freed (d ∷ ds) v v2
Freed-cons d ds v v1 v2 w r = record {
  entries = λ x t.
      let t1 : InTable v1 x = rw (w.fat_sectors) t in
      elim (Bool-cases (x == d)) [
        | inl same ↦
            let e : x ≡ d = ground arith in
            let z : fat_next_cluster x v1 ≡ 0 = rw (e) w.entry in
            r.entries x t1 ∙ (rw (same, z) (if_same (elem x ds)))
        | inr other ↦ r.entries x t1 ∙ (rw (w.others x (ground arith) t, other) refl)
      ];
  good = r.good;
  range = r.range;
  fat_sectors = r.fat_sectors ∙ w.fat_sectors;
}

free_chain-Freed :
    (fuel c : ℕ) (cs : List ℕ) (v : Volume)
    → IsGood v
    → IsBytes v
    → distinct cs ≡ true
    → length cs < fuel
    → IsChain v c cs
    → Freed cs v (free_chain fuel c v)
unfolding free_chain
free_chain-Freed zero c cs v g b dis h ch = elim h [ ]
free_chain-Freed (suc fuel) c [] v g b dis h ch =
    let stop : leb 2 c && ltb c 0xFF0 ≡ false = ground arith in
    rw (stop) (record { entries = λ d t. refl; good = g; range = b; fat_sectors = refl })
free_chain-Freed (suc fuel) c (d ∷ ds) v g b dis h (e, lo, hi, t, ch) =
    let go : leb 2 d && ltb d 0xFF0 ≡ true = ground arith in
    let w = (fat_set-Written d 0 v g b (omega arith) t).1 in
    let v1 = (fat_set d 0 v).1 in
    let out : elem d ds ≡ false = ground arith in
    let rest =
      free_chain-Freed fuel (fat_next_cluster d v) ds v1 w.good w.range (ground arith) (omega arith)
        (IsChain-frame d 0 v v1 _ ds w out ch) in
    rw (e, go) (Freed-cons d ds v v1 _ w rest)

-- On a drive without errors, freeing a chain of fewer than 65536 distinct clusters sets the entry
-- of each of them to 0 and leaves every other entry as it was.
pub fat_free_chain-Freed :
    (c : ℕ) (cs : List ℕ) (v : Volume)
    → IsGood v
    → IsBytes v
    → distinct cs ≡ true
    → length cs < 65536
    → IsChain v c cs
    → Freed cs v (fat_free_chain c v)
unfolding fat_free_chain
fat_free_chain-Freed c cs v g b dis h ch = free_chain-Freed 65536 c cs v g b dis h ch
