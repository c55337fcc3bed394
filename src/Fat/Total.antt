-- ===== src/Fat/Total.antt =====
-- The loops of `fat_write`, kernel/fat.c, end: the sectors of a cluster stay what the mount set.
use nova_kernel.Prelude.{
  ℕ, zero, suc, ◌+◌, ◌-◌, ◌*◌, ◌/◌, ◌%◌, ◌<◌, ◌≤◌, ◌≡◌, ◌≢◌, refl, Bool, true, false, not, ◌&&◌,
  leb, ltb, ◌==◌, if◌then◌else◌, arith, List, Option, none, some, min, Bool-cases, inl, inr, ◌∙◌,
  ap, update,
}
use nova_kernel.Fat.Disk.{Sector, Volume, ata_read_sector, ata_write_sector, get16}
use nova_kernel.Fat.Table.{
  entry_offset, patch_lo, patch_hi, patch_sector, set_copy, fat_set, free_chain, fat_free_chain,
  zero_sectors, alloc_cluster_from, fat_alloc_cluster, fat_next_cluster, data_clusters_max,
}
use nova_kernel.Fat.Name.{norm_name}
use nova_kernel.Fat.Dir.{Slot, dir_find_slot}
use nova_kernel.Fat.File.{
  Chaining, link, link_clusters, payload, write_sectors, stream, drop_old, clusters_for, write_at,
  fat_write,
}

module _ (n : ℕ) where
  either :
      {A : Type 0} (b : Bool) (x y : A × Volume)
      → x.1.spc ≡ n
      → y.1.spc ≡ n
      → (if b then x else y).1.spc ≡ n
  either true x y hx hy = hx
  either false x y hx hy = hy

  write-spc : (lba : ℕ) (b : Sector) (v : Volume) → v.spc ≡ n → (ata_write_sector lba b v).1.spc ≡ n
  unfolding ata_write_sector
  write-spc lba b v h = either (v.writable lba) _ _ h h

  patch-spc :
      (lba : ℕ) (patch : Sector → Sector) (v : Volume)
      → v.spc ≡ n
      → (patch_sector lba patch v).1.spc ≡ n
  patch-spc lba patch v h = go (ata_read_sector lba v)
    where
      go :
          (o : Option Sector)
          → (let r : Bool × Volume = elim o [
            | none ↦ (false, v)
            | some b ↦ ata_write_sector lba (patch b) v
          ] in
              r.1.spc ≡ n)
      go none = h
      go (some b) = write-spc lba (patch b) v h

  set_copy-spc : (base c value : ℕ) (v : Volume) → v.spc ≡ n → (set_copy base c value v).1.spc ≡ n
  unfolding set_copy
  set_copy-spc base c value v h =
      let first =
        patch-spc (base + entry_offset c / 512) (λ b. update b 511 (patch_lo c value (b 511))) v
          h in
      either (entry_offset c % 512 == 511) _ _
        (either _ _ _
          (patch-spc (base + entry_offset c / 512 + 1) (λ b. update b 0 (patch_hi c value (b 0))) _
            first)
          first)
        (patch-spc (base + entry_offset c / 512) _ v h)

  fat_set-spc : (c value : ℕ) (v : Volume) → v.spc ≡ n → (fat_set c value v).1.spc ≡ n
  unfolding fat_set
  fat_set-spc c value v h =
      let first = set_copy-spc v.fat_lba c value v h in
      either (set_copy v.fat_lba c value v).0 _ _
        (set_copy-spc (v.fat_lba + v.fat_sectors) c value (set_copy v.fat_lba c value v).1 first)
        first

  either_volume : (b : Bool) (x y : Volume) → x.spc ≡ n → y.spc ≡ n → (if b then x else y).spc ≡ n
  either_volume true x y hx hy = hx
  either_volume false x y hx hy = hy

  free_chain-spc : (fuel c : ℕ) (v : Volume) → v.spc ≡ n → (free_chain fuel c v).spc ≡ n
  unfolding free_chain
  free_chain-spc zero c v h = h
  free_chain-spc (suc fuel) c v h =
      either_volume (leb 2 c && ltb c 0xFF0) _ _
        (free_chain-spc fuel (fat_next_cluster c v) (fat_set c 0 v).1 (fat_set-spc c 0 v h)) h

  fat_free_chain-spc : (c : ℕ) (v : Volume) → v.spc ≡ n → (fat_free_chain c v).spc ≡ n
  unfolding fat_free_chain
  fat_free_chain-spc c v h = free_chain-spc 65536 c v h

  zero_sectors-spc : (k lba : ℕ) (v : Volume) → v.spc ≡ n → (zero_sectors k lba v).1.spc ≡ n
  unfolding zero_sectors
  zero_sectors-spc zero lba v h = h
  zero_sectors-spc (suc k) lba v h =
      let w = write-spc lba (λ _. 0) v h in
      either (ata_write_sector lba (λ _. 0) v).0 _ _
        (zero_sectors-spc k (lba + 1) (ata_write_sector lba (λ _. 0) v).1 w) w

  alloc-spc : (k c : ℕ) (v : Volume) → v.spc ≡ n → (alloc_cluster_from k c v).1.spc ≡ n
  unfolding alloc_cluster_from
  alloc-spc zero c v h = h
  alloc-spc (suc k) c v h =
      let m = fat_set-spc c 0x0FFF v h in
      either (fat_next_cluster c v == 0) _ _
        (either (fat_set c 0x0FFF v).0 _ _
          (zero_sectors-spc v.spc (v.data_lba + (c - 2) * v.spc) (fat_set c 0x0FFF v).1 m) m)
        (alloc-spc k (c + 1) v h)

  fat_alloc_cluster-spc : (v : Volume) → v.spc ≡ n → (fat_alloc_cluster v).1.spc ≡ n
  unfolding fat_alloc_cluster
  fat_alloc_cluster-spc v h = alloc-spc (data_clusters_max v) 2 v h

  either_chain :
      (b : Bool) (x y : Bool × Chaining)
      → x.1.volume.spc ≡ n
      → y.1.volume.spc ≡ n
      → (if b then x else y).1.volume.spc ≡ n
  either_chain true x y hx hy = hx
  either_chain false x y hx hy = hy

  link_clusters-spc :
      (k : ℕ) (s : Chaining) → s.volume.spc ≡ n → (link_clusters k s).1.volume.spc ≡ n
  unfolding link_clusters
  link_clusters-spc zero s h = h
  link_clusters-spc (suc k) s h =
      let a = fat_alloc_cluster-spc s.volume h in
      let c0 = (fat_alloc_cluster s.volume).0 in
      let v0 = (fat_alloc_cluster s.volume).1 in
      either_chain (c0 == 0) _ _
        (either_volume (not (s.first == 0)) _ _ (fat_free_chain-spc s.first v0 a) a)
        (link_clusters-spc k (link c0 v0 s)
          (either_volume (not (s.prev == 0)) _ _ (fat_set-spc s.prev c0 v0 a) a))

module _ (bytes : ℕ → ℕ) (len : ℕ) where
  -- A cluster takes a byte of the payload at least, and none past its end.
  record Progress (k written : ℕ) (v : Volume) (res : Bool × ℕ × Volume) : Type 0 where
    ahead : written ≤ res.1
    fits : res.1 ≤ len
    moves : 0 < k → written < len → written < res.1
    kept : res.2.spc ≡ v.spc

  write_sectors-Progress :
      (k lba written : ℕ) (v : Volume)
      → written ≤ len
      → Progress k written v (write_sectors bytes len k lba written v)
  unfolding write_sectors
  write_sectors-Progress zero lba written v h = record {
    ahead = omega arith;
    fits = h;
    moves = λ pos. absurd (omega (arith, pos));
    kept = refl;
  }
  write_sectors-Progress (suc k) lba written v h =
      let w = write-spc v.spc lba (payload bytes len written) v refl in
      let v1 = (ata_write_sector lba (payload bytes len written) v).1 in
      elim (Bool-cases (ltb written len)) [
        | inr e ↦
            rw (e) (record {
              ahead = omega arith;
              fits = h;
              moves = λ pos lt. ground arith;
              kept = refl;
            })
        | inl e ↦ rw (e) (elim (Bool-cases (ata_write_sector lba (payload bytes len written) v).0) [
          | inr bad ↦ rw (bad) (record {
            ahead = omega arith;
            fits = omega arith;
            moves = λ pos lt. omega arith;
            kept = w;
          })
          | inl good ↦
              let ih =
                write_sectors-Progress k (lba + 1) (min len (written + 512)) v1 (omega arith) in
              let a = ih.ahead in
              let f = ih.fits in
              rw (good) (record {
                ahead = omega arith;
                fits = f;
                moves = λ pos lt. omega arith;
                kept = ih.kept ∙ w;
              })
        ])
      ]

  abbrev is_some {ℓ} : {A : Type ℓ} → Option A → Bool
  is_some none = false
  is_some (some a) = true

  is_some-stream :
      (fuel c written : ℕ) (v : Volume)
      → 0 < v.spc
      → written ≤ len
      → len - written < fuel
      → is_some (stream bytes len fuel c written v) ≡ true
  unfolding stream
  is_some-stream zero c written v pos h lt = absurd (omega (arith, lt))
  is_some-stream (suc fuel) c written v pos h lt =
      let w = write_sectors bytes len v.spc (v.data_lba + (c - 2) * v.spc) written v in
      let p = write_sectors-Progress v.spc (v.data_lba + (c - 2) * v.spc) written v h in
      let f = p.fits in
      let kp = p.kept in
      elim (Bool-cases (leb 2 c && ltb written len)) [
        | inr e ↦ rw (e) refl
        | inl e ↦
            let m = p.moves pos (ground arith) in
            rw (e) (elim (Bool-cases w.0) [
              | inr bad ↦ rw (bad) refl
              | inl good ↦ rw (good) (
                  is_some-stream fuel (if ltb w.1 len then fat_next_cluster c w.2 else c) w.1 w.2
                    (omega arith) f (omega arith))
            ])
      ]

  some_if :
      (b : Bool) (x y : Option (Bool × Volume))
      → is_some x ≡ true
      → is_some y ≡ true
      → is_some (if b then x else y) ≡ true
  some_if true x y hx hy = hx
  some_if false x y hx hy = hy

  then_some :
      (o : Option (Bool × Volume)) (f : Bool × Volume → Bool × Volume)
      → is_some o ≡ true
      → is_some (elim o [ none ↦ none | some x ↦ some (f x) ]) ≡ true
  then_some none f h = h
  then_some (some x) f h = refl

  is_some-write_at :
      (norm : List ℕ) (slot : Slot) (v : Volume)
      → 0 < v.spc
      → is_some (write_at norm bytes len slot v) ≡ true
  unfolding write_at
  is_some-write_at norm slot v pos =
      let s0 : Chaining = record { first = 0; prev = 0; volume = v } in
      let s = (link_clusters (clusters_for len v) s0).1 in
      let e = link_clusters-spc v.spc (clusters_for len v) s0 refl in
      some_if (link_clusters (clusters_for len v) s0).0 _ _
        (then_some (stream bytes len (len + 1) s.first 0 s.volume) _
          (is_some-stream (len + 1) s.first 0 s.volume (omega arith) (omega arith) (omega arith)))
        refl

  drop_old-spc : (slot : Slot) (v : Volume) → (drop_old slot v).1.spc ≡ v.spc
  drop_old-spc slot v = either v.spc (not slot.existed) _ _ refl (go (ata_read_sector slot.lba v))
    where
      go :
          (o : Option Sector)
          → (let r : Bool × Volume = elim o [
            | none ↦ (false, v)
            | some b ↦ (true, fat_free_chain (get16 b (slot.off + 26)) v)
          ] in
              r.1.spc ≡ v.spc)
      go none = refl
      go (some b) = fat_free_chain-spc v.spc (get16 b (slot.off + 26)) v refl

  is_some-fat_write :
      (name : List ℕ) (v : Volume) → 0 < v.spc → is_some (fat_write name bytes len v) ≡ true
  unfolding fat_write
  is_some-fat_write name v pos =
      some_if (not v.mounted) _ _ refl (go (dir_find_slot (norm_name name) v))
    where
      go :
          (o : Option Slot)
          → is_some {A = Bool × Volume} (elim o [
            | none ↦ some (false, v)
            | some slot ↦
                if (drop_old slot v).0
                then write_at (norm_name name) bytes len slot (drop_old slot v).1
                else some (false, (drop_old slot v).1)
          ])
            ≡ true
      go none = refl
      go (some slot) =
          let e = drop_old-spc slot v in
          some_if (drop_old slot v).0 _ _
            (is_some-write_at (norm_name name) slot (drop_old slot v).1 (omega arith)) refl

-- A write always ends, with a result, when a cluster has a sector at least: the rounds that its loop
-- over the clusters is given are enough for any payload.
pub fat_write-total :
    (name : List ℕ) (bytes : ℕ → ℕ) (len : ℕ) (v : Volume)
    → 0 < v.spc
    → fat_write name bytes len v ≢ none
fat_write-total name bytes len v pos e =
    let h = is_some-fat_write bytes len name v pos in let k = ap (is_some bytes len) e in cc
