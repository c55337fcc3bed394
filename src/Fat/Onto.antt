-- ===== src/Fat/Onto.antt =====
-- The list of the clusters of a chain from its first on, for the chains of kernel/fat.c.
use nova_kernel.Prelude.{
  ℕ, ◌+◌, ◌≡◌, refl, sym, ◌∙◌, Bool, true, false, ◌||◌, arith, ◌==◌, Bool-cases, inl, inr, List, [],
  ◌∷◌, subst, length,
}
use nova_kernel.Fat.Disk.{Volume}
use nova_kernel.Fat.Table.{fat_next_cluster}
use nova_kernel.Fat.Chain.{elem, distinct, IsChain}
use nova_kernel.Fat.File.{Chaining}
use nova_kernel.Fat.Grow.{Grown, Numbered, follow, origin}

-- the list the other way round, in front of another
abbrev pub onto : List ℕ → List ℕ → List ℕ
onto [] acc = acc
onto (x ∷ xs) acc = onto xs (x ∷ acc)

or_swap : (a b c : Bool) → (b || (a || c)) ≡ ((a || b) || c)
or_swap true true c = refl
or_swap true false c = refl
or_swap false true c = refl
or_swap false false c = refl

pub elem-onto : (d : ℕ) (rs acc : List ℕ) → elem d (onto rs acc) ≡ (elem d rs || elem d acc)
elem-onto d [] acc = refl
elem-onto d (x ∷ xs) acc = elem-onto d xs (x ∷ acc) ∙ or_swap (d == x) (elem d xs) (elem d acc)

pub length-onto : (rs acc : List ℕ) → length (onto rs acc) ≡ length rs + length acc
length-onto [] acc = omega arith
length-onto (x ∷ xs) acc = omega (arith, length-onto xs (x ∷ acc))

pub distinct-onto :
    (rs acc : List ℕ)
    → distinct rs ≡ true
    → distinct acc ≡ true
    → ((d : ℕ) → elem d rs ≡ true → elem d acc ≡ false)
    → distinct (onto rs acc) ≡ true
distinct-onto [] acc p q h = q
distinct-onto (x ∷ xs) acc p q h =
    let hx = h x (ground arith) in
    distinct-onto xs (x ∷ acc) (ground arith) (ground arith) (λ d e. elim (Bool-cases (d == x)) [
      | inl same ↦
          let z : d ≡ x = ground arith in
          let e' = subst (λ y. elem y xs ≡ true) z e in absurd (ground arith)
      | inr other ↦ let hd = h d (ground arith) in ground arith
    ])

-- A list whose clusters have their followers in their entries is a chain, from its last on.
onto-IsChain :
    (n : ℕ) (rs acc : List ℕ) (v : Volume)
    → ((d : ℕ) → elem d rs ≡ true → Numbered v d)
    → ((d : ℕ) → elem d rs ≡ true → fat_next_cluster d v ≡ follow n rs d)
    → distinct rs ≡ true
    → IsChain v n acc
    → IsChain v (origin n rs) (onto rs acc)
onto-IsChain n [] acc v m f p h = h
onto-IsChain n (x ∷ xs) acc v m f p h =
    let mx = m x (ground arith) in
    let fx : fat_next_cluster x v ≡ n = f x (ground arith) ∙ ground arith in
    onto-IsChain x xs (x ∷ acc) v (λ d e. m d (ground arith))
      (λ d e. elim (Bool-cases (d == x)) [
        | inl same ↦
            let z : d ≡ x = ground arith in
            let e' = subst (λ y. elem y xs ≡ true) z e in absurd (ground arith)
        | inr other ↦ f d (ground arith) ∙ (rw (other) refl)
      ])
      (ground arith) (refl, mx.lo, mx.hi, mx.inside, subst (λ y. IsChain v y acc) (sym fx) h)

-- the chain of the clusters that have been taken
pub Grown-IsChain :
    (v : Volume) (rs : List ℕ) (s : Chaining)
    → Grown v rs s
    → IsChain s.volume (origin 0xFFF rs) (onto rs [])
Grown-IsChain v rs s g =
    onto-IsChain 0xFFF rs [] s.volume
      (λ d e.
        let m = g.members d e in
        record { lo = m.lo; hi = m.hi; inside = rw (g.fat_sectors) m.inside })
      (λ d e. let m = g.members d e in g.entries d m.inside ∙ (rw (e) refl)) g.apart
      (inr (omega arith))
