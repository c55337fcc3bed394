-- ===== src/Fat/Frame.antt =====
-- What the chains of kernel/fat.c keep when sectors of the data area are written.
use nova_kernel.Prelude.{
  ℕ, ◌+◌, ◌-◌, ◌*◌, ◌%◌, ◌<◌, ◌≤◌, ◌≡◌, ◌≢◌, sym, ap, ap₂, ◌∙◌, true, arith, ◌==◌, Bool-cases, inl,
  inr, ◌⊎◌, List, [], ◌∷◌, subst, ltb,
}
use native.Mathlib.Nat.{mul-le-mul_right}
use nova_kernel.Fat.Disk.{Volume, Sector}
use nova_kernel.Fat.Table.{fat_next_cluster, decode_entry, entry_offset}
use nova_kernel.Fat.Bytes.{IsGood, fat_next_cluster_lem}
use nova_kernel.Fat.Entry.{InTable}
use nova_kernel.Fat.Chain.{elem, distinct, IsChain}

-- entries are read below the first sector that differs
pub low_entries :
    (d lba : ℕ) (v v' : Volume)
    → IsGood v
    → IsGood v'
    → v'.fat_lba ≡ v.fat_lba
    → ((k : ℕ) → k < lba → v'.sector k ≡ v.sector k)
    → InTable v d
    → v.fat_lba + v.fat_sectors ≤ lba
    → fat_next_cluster d v' ≡ fat_next_cluster d v
low_entries d lba v v' g g' base below t h =
    fat_next_cluster_lem v' d g'
    ∙ (rw (base) (
        ap₂ (decode_entry d) (ap (λ (s : Sector). s (entry_offset d % 512)) (below _ (omega arith)))
          (ap (λ (s : Sector). s ((entry_offset d + 1) % 512)) (below _ (omega arith)))))
    ∙ sym (fat_next_cluster_lem v d g)

pub IsChain-same :
    (v v' : Volume) (c : ℕ) (cs : List ℕ)
    → v'.fat_sectors ≡ v.fat_sectors
    → ((d : ℕ) → InTable v d → fat_next_cluster d v' ≡ fat_next_cluster d v)
    → IsChain v c cs
    → IsChain v' c cs
IsChain-same v v' c [] size same h = h
IsChain-same v v' c (d ∷ ds) size same (e, lo, hi, t, h) =
    let rest = IsChain-same v v' (fat_next_cluster d v) ds size same h in
    (e, lo, hi, rw (size) t, rw (same d t) rest)

-- the clusters of a chain start at 2
chain_lo : (v : Volume) (c : ℕ) (cs : List ℕ) (d : ℕ) → IsChain v c cs → elem d cs ≡ true → 2 ≤ d
chain_lo v c [] d h e = absurd (ground arith)
chain_lo v c (x ∷ xs) d (q, lo, hi, t, h) e = elim (Bool-cases (d == x)) [
  | inl same ↦ ground arith
  | inr other ↦ chain_lo v (fat_next_cluster x v) xs d h (ground arith)
]

pub members-apart :
    (d : ℕ) (ds : List ℕ) (v : Volume)
    → IsChain v (fat_next_cluster d v) ds
    → distinct (d ∷ ds) ≡ true
    → (x : ℕ) → elem x ds ≡ true
    → (2 ≤ x) × (x ≢ d)
members-apart d ds v ch dis x e = (
  chain_lo v (fat_next_cluster d v) ds x ch e,
  λ q. let z = subst (λ y. elem y ds ≡ true) q e in absurd (ground arith),
)

-- different clusters have different sectors
pub clusters_apart :
    (c d spc k : ℕ)
    → 2 ≤ c
    → 2 ≤ d
    → d ≢ c
    → (c - 2) * spc ≤ k
    → k < (c - 2) * spc + spc
    → (k < (d - 2) * spc) ⊎ ((d - 2) * spc + spc ≤ k)
clusters_apart c d spc k hc hd ne lo hi = elim (Bool-cases (ltb d c)) [
  | inl less ↦
      let le : d - 2 + 1 ≤ c - 2 = ground arith in
      let m : (d - 2 + 1) * spc ≤ (c - 2) * spc = mul-le-mul_right spc le in
      inr (omega (arith, m, lo))
  | inr more ↦
      let le : c - 2 + 1 ≤ d - 2 = ground arith in
      let m : (c - 2 + 1) * spc ≤ (d - 2) * spc = mul-le-mul_right spc le in
      inl (omega (arith, m, hi))
]
