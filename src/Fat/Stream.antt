-- ===== src/Fat/Stream.antt =====
-- Where `fat_write` of kernel/fat.c puts the payload: the clusters of the chain, one after the other.
use nova_kernel.Prelude.{
  ℕ, zero, suc, ◌+◌, ◌-◌, ◌*◌, ◌/◌, ◌%◌, ◌<◌, ◌≤◌, ◌≡◌, ◌≢◌, refl, ap, ap₂, ◌∙◌, Bool, true, false,
  ◌&&◌, arith, Bool-cases, inl, inr, List, [], ◌∷◌, length, leb, ltb, Option, some,
}
use nova_kernel.Fat.Disk.{Volume}
use nova_kernel.Fat.Table.{fat_next_cluster}
use nova_kernel.Fat.Bytes.{IsGood}
use nova_kernel.Fat.Entry.{InTable}
use nova_kernel.Fat.Chain.{elem, distinct, IsChain}
use nova_kernel.Fat.File.{write_sectors, stream}
use nova_kernel.Fat.Grow.{first_lba, Avoids}
use nova_kernel.Fat.Read.{file_byte, file_byte-here, file_byte-behind}
use nova_kernel.Fat.Store.{Sectors, write_sectors-Sectors}
use nova_kernel.Fat.Frame.{low_entries, IsChain-same, members-apart, clusters_apart}

module _ (bytes : ℕ → ℕ) (len : ℕ) where
  -- What streaming the payload from `written` on into the chain leaves.
  pub record Stored (cs : List ℕ) (c written : ℕ) (v v' : Volume) : Type 0 where
    pub stored : (j : ℕ) → written + j < len → file_byte (length cs) c j v' ≡ bytes (written + j)
    pub outside : (k : ℕ) → Avoids v k cs → v'.sector k ≡ v.sector k
    pub entries : (d : ℕ) → InTable v d → fat_next_cluster d v' ≡ fat_next_cluster d v
    pub good : IsGood v'
    pub fat_lba : v'.fat_lba ≡ v.fat_lba
    pub fat_sectors : v'.fat_sectors ≡ v.fat_sectors
    pub spc : v'.spc ≡ v.spc
    pub data_lba : v'.data_lba ≡ v.data_lba

  pub record Done (cs : List ℕ) (c written : ℕ) (v : Volume) (r : Option (Bool × Volume))
      : Type 0 where
    pub volume : Volume
    pub result : r ≡ some (true, volume)
    pub kept : Stored cs c written v volume

  over :
      (fuel c written : ℕ) (v : Volume)
      → len ≤ written
      → stream bytes len (suc fuel) c written v ≡ some (true, v)
  unfolding stream
  over fuel c written v h = let q : leb 2 c && ltb written len ≡ false = ground arith in rw (q) refl

  over_pos :
      (fuel c written : ℕ) (v : Volume)
      → 1 ≤ fuel
      → len ≤ written
      → stream bytes len fuel c written v ≡ some (true, v)
  over_pos zero c written v pos h = absurd (omega arith)
  over_pos (suc fuel) c written v pos h = over fuel c written v h

  Stored-over :
      (cs : List ℕ) (c written : ℕ) (v : Volume)
      → IsGood v
      → len ≤ written
      → Stored cs c written v v
  Stored-over cs c written v g h = record {
    stored = λ j a. absurd (omega arith);
    outside = λ k a. refl;
    entries = λ d t. refl;
    good = g;
    fat_lba = refl;
    fat_sectors = refl;
    spc = refl;
    data_lba = refl;
  }

  -- one cluster of the chain, and the rest of it
  module _ (d : ℕ) (ds : List ℕ) (written : ℕ) (v : Volume) (w : Bool × ℕ × Volume)
      (s : Sectors bytes len v.spc (first_lba v d) written v w) (g : IsGood v)
      (behind : v.fat_lba + 2 * v.fat_sectors ≤ v.data_lba) (lo : 2 ≤ d)
      (apart : (x : ℕ) → elem x ds ≡ true → (2 ≤ x) × (x ≢ d)) where
    first_entries : (x : ℕ) → InTable v x → fat_next_cluster x w.2 ≡ fat_next_cluster x v
    first_entries x t =
        low_entries x (first_lba v d) v w.2 g s.good s.fat_lba s.below t (omega arith)

    module _ (v' : Volume) (r : Stored ds (fat_next_cluster d v) w.1 w.2 v') (t : InTable v d) where
      both_spc : v'.spc ≡ v.spc
      both_spc = r.spc ∙ s.spc

      both_data : v'.data_lba ≡ v.data_lba
      both_data = r.data_lba ∙ s.data_lba

      all_entries : (x : ℕ) → InTable v x → fat_next_cluster x v' ≡ fat_next_cluster x v
      all_entries x h = r.entries x (rw (s.fat_sectors) h) ∙ first_entries x h

      stays : (k : ℕ) → Avoids v k ds → v'.sector k ≡ w.2.sector k
      stays k av = r.outside k (λ x e. rw (s.data_lba, s.spc) (av x e))

      own-Avoids : (k : ℕ) → first_lba v d ≤ k → k < first_lba v d + v.spc → Avoids v k ds
      own-Avoids k a b x e =
          let p = apart x e in
          elim (clusters_apart d x v.spc (k - v.data_lba) lo p.0 p.1 (omega arith) (omega arith)) [
            | inl below ↦ inl (omega (arith, below))
            | inr above ↦ inr (omega (arith, above))
          ]

      first_bytes :
          (j : ℕ)
          → written + j < len
          → j < v.spc * 512
          → file_byte (suc (length ds)) d j v' ≡ bytes (written + j)
      first_bytes j a b =
          let q : ltb j (v'.spc * 512) ≡ true = rw (both_spc) (ground arith) in
          let k = first_lba v d + j / 512 in
          let place : v'.data_lba + (d - 2) * v'.spc + j / 512 ≡ k =
            rw (both_spc, both_data) refl in
          file_byte-here (length ds) d j v' q
          ∙ ap (λ x. v'.sector x (j % 512)) place
          ∙ ap (λ f. f (j % 512)) (stays k (own-Avoids k (omega arith) (omega arith)))
          ∙ s.stored j b a

      later_bytes :
          (j : ℕ)
          → written + j < len
          → v.spc * 512 ≤ j
          → file_byte (suc (length ds)) d j v' ≡ bytes (written + j)
      later_bytes j a b =
          let q : ltb j (v'.spc * 512) ≡ false = rw (both_spc) (ground arith) in
          let gone = s.gone in
          let e : w.1 + (j - v.spc * 512) ≡ written + j = omega (arith, gone) in
          file_byte-behind (length ds) d j v' q
          ∙ ap₂ (λ x y. file_byte (length ds) x (j - y * 512) v') (all_entries d t) both_spc
          ∙ r.stored (j - v.spc * 512) (omega (arith, e))
          ∙ ap bytes e

      Stored-cons : Stored (d ∷ ds) d written v v'
      Stored-cons = record {
        stored = λ j a. elim (Bool-cases (ltb j (v.spc * 512))) [
          | inl here ↦ first_bytes j a (ground arith)
          | inr behind ↦ later_bytes j a (ground arith)
        ];
        outside = λ k av. stays k (λ x e. av x (ground arith)) ∙ (elim (av d (ground arith)) [
          | inl below ↦ s.below k below
          | inr above ↦ s.above k above
        ]);
        entries = all_entries;
        good = r.good;
        fat_lba = r.fat_lba ∙ s.fat_lba;
        fat_sectors = r.fat_sectors ∙ s.fat_sectors;
        spc = both_spc;
        data_lba = both_data;
      }

  -- the chain has room for what is left of the payload
  abbrev pub Room : List ℕ → ℕ → Volume → Type 0
  Room cs written v = len ≤ written + length cs * (v.spc * 512)

  pub stream-Done :
      (cs : List ℕ) (fuel c written : ℕ) (v : Volume)
      → IsGood v
      → v.fat_lba + 2 * v.fat_sectors ≤ v.data_lba
      → 1 ≤ v.spc
      → distinct cs ≡ true
      → IsChain v c cs
      → Room cs written v
      → written ≤ len
      → len < written + fuel
      → Done cs c written v (stream bytes len fuel c written v)
  unfolding stream
  stream-Done cs zero c written v g behind pos dis ch room le enough = absurd (omega arith)
  stream-Done [] (suc fuel) c written v g behind pos dis ch room le enough = record {
    volume = v;
    result = over fuel c written v (omega (arith, room));
    kept = Stored-over [] c written v g (omega (arith, room));
  }
  stream-Done (d ∷ ds) (suc fuel) c written v g behind pos dis (same, lo, hi, t, ch) room le
        enough =
      elim (Bool-cases (ltb written len)) [
        | inr end ↦ record {
          volume = v;
          result = over fuel c written v (ground arith);
          kept = Stored-over (d ∷ ds) c written v g (ground arith);
        }
        | inl more ↦
            let start = first_lba v d in
            let w = write_sectors bytes len v.spc start written v in
            let s = write_sectors-Sectors bytes len v.spc start written v g le in
            let gone = s.gone in
            let go : leb 2 d && ltb written len ≡ true = ground arith in
            let others = members-apart d ds v ch dis in
            let same_next : (x : ℕ) → InTable v x → fat_next_cluster x w.2 ≡ fat_next_cluster x v =
              first_entries d ds written v w s g behind lo others in
            let next = fat_next_cluster d v in
            rw (same, go, s.done)
              (elim (Bool-cases (ltb w.1 len)) [
                | inr end ↦
                    let none_left = Stored-over ds next w.1 w.2 s.good (ground arith) in
                    rw (end) (record {
                      volume = w.2;
                      result = over_pos fuel d w.1 w.2 (ground arith) (ground arith);
                      kept = Stored-cons d ds written v w s g behind lo others w.2 none_left t;
                    })
                | inl on ↦
                    let part : w.1 ≡ written + v.spc * 512 = ground arith in
                    let rest =
                      stream-Done ds fuel next w.1 w.2 s.good
                        (rw (s.fat_lba, s.fat_sectors, s.data_lba) behind) (rw (s.spc) pos)
                        (ground arith) (IsChain-same v w.2 next ds s.fat_sectors same_next ch)
                        (rw (s.spc) (omega (arith, room, part))) (ground arith)
                        (omega (arith, part, pos, enough)) in
                    rw (on, same_next d t)
                      (record {
                        volume = rest.volume;
                        result = rest.result;
                        kept =
                            Stored-cons d ds written v w s g behind lo others rest.volume rest.kept
                              t;
                      })
              ])
      ]
