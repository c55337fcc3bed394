-- ===== src/Fat/Store.antt =====
-- Where `fat_write` of kernel/fat.c puts the payload: the clusters of the chain, one after the other.
use nova_kernel.Prelude.{
  ℕ, zero, suc, ◌+◌, ◌-◌, ◌*◌, ◌/◌, ◌%◌, ◌<◌, ◌≤◌, ◌≡◌, refl, ap, ap₂, ◌∙◌, Bool, true, arith,
  Bool-cases, inl, inr, min, update, ltb,
}
use nova_kernel.Fat.Disk.{Volume}
use nova_kernel.Fat.Bytes.{IsGood, with_sector, write_ok}
use nova_kernel.Fat.File.{payload, write_sectors}

module _ (bytes : ℕ → ℕ) (len : ℕ) where
  -- What writing the `n` sectors from `lba` on, with the payload from `written` on, leaves.
  pub record Sectors (n lba written : ℕ) (v : Volume) (r : Bool × ℕ × Volume) : Type 0 where
    pub done : r.0 ≡ true
    pub gone : r.1 ≡ min len (written + n * 512)
    pub stored :
        (i : ℕ)
        → i < n * 512
        → written + i < len
        → r.2.sector (lba + i / 512) (i % 512) ≡ bytes (written + i)
    pub below : (k : ℕ) → k < lba → r.2.sector k ≡ v.sector k
    pub above : (k : ℕ) → lba + n ≤ k → r.2.sector k ≡ v.sector k
    pub good : IsGood r.2
    pub fat_lba : r.2.fat_lba ≡ v.fat_lba
    pub fat_sectors : r.2.fat_sectors ≡ v.fat_sectors
    pub spc : r.2.spc ≡ v.spc
    pub data_lba : r.2.data_lba ≡ v.data_lba

  nothing_left :
      (n lba written : ℕ) (v : Volume)
      → IsGood v
      → written ≡ len
      → Sectors n lba written v (true, written, v)
  nothing_left n lba written v g e = record {
    done = refl;
    gone = omega arith;
    stored = λ i a b. absurd (omega arith);
    below = λ k h. refl;
    above = λ k h. refl;
    good = g;
    fat_lba = refl;
    fat_sectors = refl;
    spc = refl;
    data_lba = refl;
  }

  Sectors-suc :
      (n lba written : ℕ) (v : Volume) (r : Bool × ℕ × Volume)
      → written < len
      → Sectors n
          (lba + 1)
          (min len (written + 512))
          (with_sector v lba (payload bytes len written))
          r
      → Sectors (suc n) lba written v r
  Sectors-suc n lba written v r lt s = record {
    done = s.done;
    gone = s.gone ∙ omega arith;
    stored = λ i a b. elim (Bool-cases (ltb i 512)) [
      | inl first ↦
          let p = payload bytes len written in
          let small : i < 512 = ground arith in
          let z : lba + i / 512 ≡ lba = omega (arith, small) in
          let m : i % 512 ≡ i = omega (arith, small) in
          let b1 = s.below lba (omega arith) in
          let own : update v.sector lba p lba ≡ p = ground arith in
          let e : p i ≡ bytes (written + i) = ground arith in
          ap₂ (λ x y. r.2.sector x y) z m ∙ ap (λ f. f i) (b1 ∙ own) ∙ e
      | inr later ↦
          let big : 512 ≤ i = ground arith in
          let full : written + 512 ≤ len = omega (arith, big) in
          let z : lba + i / 512 ≡ lba + 1 + (i - 512) / 512 = omega (arith, big) in
          let m : i % 512 ≡ (i - 512) % 512 = omega (arith, big) in
          let w : min len (written + 512) + (i - 512) ≡ written + i = omega (arith, big, full) in
          ap₂ (λ x y. r.2.sector x y) z m
          ∙ s.stored (i - 512) (omega (arith, big)) (omega (arith, w))
          ∙ ap bytes w
    ];
    below = λ k h. s.below k (omega arith) ∙ ground arith;
    above = λ k h. s.above k (omega arith) ∙ ground arith;
    good = s.good;
    fat_lba = s.fat_lba;
    fat_sectors = s.fat_sectors;
    spc = s.spc;
    data_lba = s.data_lba;
  }

  pub write_sectors-Sectors :
      (n lba written : ℕ) (v : Volume)
      → IsGood v
      → written ≤ len
      → Sectors n lba written v (write_sectors bytes len n lba written v)
  unfolding write_sectors
  write_sectors-Sectors zero lba written v g le = record {
    done = refl;
    gone = omega arith;
    stored = λ i a b. absurd (omega arith);
    below = λ k h. refl;
    above = λ k h. refl;
    good = g;
    fat_lba = refl;
    fat_sectors = refl;
    spc = refl;
    data_lba = refl;
  }
  write_sectors-Sectors (suc n) lba written v g le = elim (Bool-cases (ltb written len)) [
    | inr over ↦ rw (over) (nothing_left (suc n) lba written v g (ground arith))
    | inl more ↦
        let b = payload bytes len written in
        let v1 = with_sector v lba b in
        let g1 : IsGood v1 = record { readable = g.readable; writable = g.writable } in
        rw (more, write_ok v lba b g)
          (Sectors-suc n lba written v _ (ground arith)
            (write_sectors-Sectors n (lba + 1) (min len (written + 512)) v1 g1 (omega arith)))
  ]
