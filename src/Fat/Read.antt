-- ===== src/Fat/Read.antt =====
-- What `fat_read` of kernel/fat.c puts into the buffer.
use nova_kernel.Prelude.{
  ℕ, zero, suc, ◌+◌, ◌-◌, ◌*◌, ◌/◌, ◌%◌, ◌≤◌, ◌≡◌, refl, Bool, true, false, not, ◌&&◌, leb, ltb,
  ◌==◌, if◌then◌else◌, arith, List, some, min, ◌∙◌, ap, sym, Bool-cases, inl, inr,
}
use nova_kernel.Fat.Disk.{Sector, Volume, ata_read_sector, get16, get32}
use nova_kernel.Fat.Table.{fat_next_cluster}
use nova_kernel.Fat.Name.{norm_name}
use nova_kernel.Fat.Dir.{find_entry}
use nova_kernel.Fat.File.{
  Buffer, copy_in, chunk, wants, take_sector, read_sectors, read_chain, fat_read,
}

-- The byte `i` of the chain that begins at the cluster `c`, of `n` clusters at most.
unfoldable pub file_byte : ℕ → ℕ → ℕ → Volume → ℕ
file_byte zero c i v = 0
file_byte (suc n) c i v = elim (ltb i (v.spc * 512)) [
  | true ↦ v.sector (v.data_lba + (c - 2) * v.spc + i / 512) (i % 512)
  | false ↦ file_byte n (fat_next_cluster c v) (i - v.spc * 512) v
]

-- The chain that begins at `c` has clusters for `left` bytes, `n` of them at most.
unfoldable pub has_clusters : ℕ → ℕ → ℕ → Volume → Bool
has_clusters zero c left v = left == 0
has_clusters (suc n) c left v = elim (left == 0) [
  | true ↦ true
  | false ↦ leb 2 c && ltb c 0xFF0 && has_clusters n (fat_next_cluster c v) (left - v.spc * 512) v
]

-- `n` bytes from `at` on are those of `f`, and the others as in `old`.
abbrev pub filled : ℕ → ℕ → (ℕ → ℕ) → (ℕ → ℕ) → ℕ → ℕ
filled at end f old i = if leb at i && ltb i end then f (i - at) else old i

pub file_byte-here :
    (n c i : ℕ) (v : Volume)
    → ltb i (v.spc * 512) ≡ true
    → file_byte (suc n) c i v ≡ v.sector (v.data_lba + (c - 2) * v.spc + i / 512) (i % 512)
unfolding file_byte
file_byte-here n c i v h = rw (file_byte, h) refl

pub file_byte-behind :
    (n c i : ℕ) (v : Volume)
    → ltb i (v.spc * 512) ≡ false
    → file_byte (suc n) c i v ≡ file_byte n (fat_next_cluster c v) (i - v.spc * 512) v
unfolding file_byte
file_byte-behind n c i v h = rw (file_byte, h) refl

has_clusters-more :
    (n c left : ℕ) (v : Volume)
    → (left == 0) ≡ false
    → has_clusters (suc n) c left v
      ≡ (leb 2 c && ltb c 0xFF0 && has_clusters n (fat_next_cluster c v) (left - v.spc * 512) v)
unfolding has_clusters
has_clusters-more n c left v h = rw (has_clusters, h) refl

and_parts : (a b c : Bool) → (a && b && c) ≡ true → (a ≡ true) × (b ≡ true) × (c ≡ true)
and_parts true true true h = (refl, refl, refl)
and_parts true true false h = absurd (ground arith)
and_parts true false c h = absurd (ground arith)
and_parts false b c h = absurd (ground arith)

module _ (fsize max : ℕ) (v : Volume) (readable : (lba : ℕ) → v.readable lba ≡ true) where
  abbrev limit : ℕ
  limit = min fsize max

  record Reads (k lba : ℕ) (r : Buffer) (res : Bool × Buffer) : Type 0 where
    done : res.0 ≡ true
    read : res.1.read ≡ min limit (r.read + k * 512)
    out :
        (i : ℕ)
        → res.1.out i
          ≡ filled r.read
              (min limit (r.read + k * 512))
              (λ j. v.sector (lba + j / 512) (j % 512))
              r.out
              i

  -- the first sector, and the others behind it
  two_parts :
      (k lba q n : ℕ) (old : ℕ → ℕ) (i : ℕ)
      → q ≤ limit
      → n ≡ min (limit - q) 512
      → filled
          (q + n)
          (min limit (q + n + k * 512))
          (λ j. v.sector (lba + 1 + j / 512) (j % 512))
          (copy_in n q (v.sector lba) old)
          i
        ≡ filled q (min limit (q + suc k * 512)) (λ j. v.sector (lba + j / 512) (j % 512)) old i
  two_parts k lba q n old i h hn =
      elim (Bool-cases (leb (q + n) i && ltb i (min limit (q + n + k * 512)))) [
        | inl later ↦
            let a : lba + 1 + (i - (q + n)) / 512 ≡ lba + (i - q) / 512 = ground arith in
            let d : (i - (q + n)) % 512 ≡ (i - q) % 512 = ground arith in
            let o : (leb q i && ltb i (min limit (q + suc k * 512))) ≡ true = ground arith in
            rw (later, a, d, o) refl
        | inr not_later ↦ elim (Bool-cases (leb q i && ltb i (q + n))) [
          | inl first ↦
              let a : lba + (i - q) / 512 ≡ lba = ground arith in
              let d : (i - q) % 512 ≡ i - q = ground arith in
              let o : (leb q i && ltb i (min limit (q + suc k * 512))) ≡ true = ground arith in
              rw (not_later, first, a, d, o) refl
          | inr outside ↦
              let o : (leb q i && ltb i (min limit (q + suc k * 512))) ≡ false = ground arith in
              rw (not_later, outside, o) refl
        ]
      ]

  read_sectors-Reads :
      (k lba : ℕ) (r : Buffer) → r.read ≤ limit → Reads k lba r (read_sectors fsize max k lba v r)
  unfolding read_sectors ata_read_sector
  read_sectors-Reads zero lba r h = record {
    done = refl;
    read = omega arith;
    out = λ i. ground arith;
  }
  read_sectors-Reads (suc k) lba r h = elim (Bool-cases (wants fsize max r)) [
    | inl e ↦
        let ok = readable lba in
        let b = v.sector lba in
        let n = chunk fsize max r.read in
        let r1 = take_sector fsize max b r in
        let ih = read_sectors-Reads k (lba + 1) r1 (omega arith) in
        let ir = ih.read in
        rw (e, ok)
          (record {
            done = ih.done;
            read = omega arith;
            out = λ i. ih.out i ∙ two_parts k lba r.read n r.out i (omega arith) (omega arith);
          })
    | inr e ↦
        let full : r.read ≡ limit = ground arith in
        rw (e) (record { done = refl; read = omega arith; out = λ i. ground arith })
  ]

  record ReadsChain (n c : ℕ) (r : Buffer) (res : Bool × Buffer) : Type 0 where
    chain_done : res.0 ≡ true
    chain_read : res.1.read ≡ limit
    chain_out : (i : ℕ) → res.1.out i ≡ filled r.read limit (λ j. file_byte n c j v) r.out i

  -- the bytes of a cluster, and those of the rest of the chain
  two_clusters :
      (n c q : ℕ) (old : ℕ → ℕ) (i : ℕ)
      → q ≤ limit
      → filled
          (min limit (q + v.spc * 512))
          limit
          (λ j. file_byte n (fat_next_cluster c v) j v)
          (filled q
            (min limit (q + v.spc * 512))
            (λ j. v.sector (v.data_lba + (c - 2) * v.spc + j / 512) (j % 512))
            old)
          i
        ≡ filled q limit (λ j. file_byte (suc n) c j v) old i
  two_clusters n c q old i h = elim (Bool-cases (leb q i && ltb i limit)) [
    | inr outside ↦
        let o1 : (leb (min limit (q + v.spc * 512)) i && ltb i limit) ≡ false = ground arith in
        let o2 : (leb q i && ltb i (min limit (q + v.spc * 512))) ≡ false = ground arith in
        rw (outside, o1, o2) refl
    | inl inside ↦ elim (Bool-cases (ltb (i - q) (v.spc * 512))) [
      | inl here ↦
          let o1 : (leb (min limit (q + v.spc * 512)) i && ltb i limit) ≡ false = ground arith in
          let o2 : (leb q i && ltb i (min limit (q + v.spc * 512))) ≡ true = ground arith in
          rw (inside, o1, o2, file_byte-here n c (i - q) v here) refl
      | inr behind ↦
          let o1 : (leb (min limit (q + v.spc * 512)) i && ltb i limit) ≡ true = ground arith in
          let a : i - min limit (q + v.spc * 512) ≡ i - q - v.spc * 512 = ground arith in
          rw (inside, o1, file_byte-behind n c (i - q) v behind, a) refl
    ]
  ]

  read_chain-Reads :
      (n c : ℕ) (r : Buffer)
      → r.read ≤ limit
      → has_clusters n c (limit - r.read) v ≡ true
      → ReadsChain n c r (read_chain fsize max n c v r)
  unfolding read_chain has_clusters
  read_chain-Reads zero c r h e = record {
    chain_done = refl;
    chain_read = let z : limit - r.read ≡ 0 = ground arith in omega arith;
    chain_out = λ i. let z : limit - r.read ≡ 0 = ground arith in ground arith;
  }
  read_chain-Reads (suc n) c r h e = elim (Bool-cases (limit - r.read == 0)) [
    | inl z ↦
        let full : r.read ≡ limit = ground arith in
        let stop : (leb 2 c && ltb c 0xFF0 && wants fsize max r) ≡ false = ground arith in
        rw (stop) (record { chain_done = refl; chain_read = full; chain_out = λ i. ground arith })
    | inr more ↦
        let (lo, hi, e') =
          and_parts (leb 2 c) (ltb c 0xFF0)
            (has_clusters n (fat_next_cluster c v) (limit - r.read - v.spc * 512) v)
            (sym (has_clusters-more n c (limit - r.read) v more) ∙ e) in
        let go : (leb 2 c && ltb c 0xFF0 && wants fsize max r) ≡ true = ground arith in
        let got = read_sectors fsize max v.spc (v.data_lba + (c - 2) * v.spc) v r in
        let g = read_sectors-Reads v.spc (v.data_lba + (c - 2) * v.spc) r h in
        let gr = g.read in
        let left : limit - got.1.read ≡ limit - r.read - v.spc * 512 = omega arith in
        let ih =
          read_chain-Reads n (fat_next_cluster c v) got.1 (omega arith)
            (ap (λ l. has_clusters n (fat_next_cluster c v) l v) left ∙ e') in
        rw (go, g.done)
          (record {
            chain_done = ih.chain_done;
            chain_read = ih.chain_read;
            chain_out = λ i.
                ih.chain_out i
                ∙ (ap
                      (λ o.
                        filled got.1.read limit (λ j. file_byte n (fat_next_cluster c v) j v)
                          (λ j. o) i)
                      (g.out i)
                    ∙ (ap
                          (λ m.
                            filled m limit (λ j. file_byte n (fat_next_cluster c v) j v)
                              (filled r.read (min limit (r.read + v.spc * 512))
                                (λ j. v.sector (v.data_lba + (c - 2) * v.spc + j / 512) (j % 512))
                                r.out)
                              i)
                          gr
                        ∙ two_clusters n c r.read r.out i h));
          })
  ]

from_start :
    (end : ℕ) (f old : ℕ → ℕ) (i : ℕ) → filled 0 end f old i ≡ (if ltb i end then f i else old i)
from_start end f old i =
    let z : i - 0 ≡ i = omega arith in let t : leb 0 i ≡ true = ground arith in rw (z, t) refl

-- When the drive reads every sector and the chain of a file of the volume has clusters for the bytes
-- that are wanted, `fat_read` succeeds with the smaller of the size of the file and `max`, puts so
-- many bytes of the chain into the buffer, and leaves the rest of the buffer as it was.
pub fat_read-contents :
    (name : List ℕ) (max : ℕ) (out : ℕ → ℕ) (v : Volume) (b : Sector) (off : ℕ)
    → v.mounted ≡ true
    → ((lba : ℕ) → v.readable lba ≡ true)
    → find_entry (norm_name name) v ≡ some (b, off)
    → has_clusters 65536 (get16 b (off + 26)) (min (get32 b (off + 28)) max) v ≡ true
    → (let (done, size, buf) = fat_read name max out v in
        (done ≡ true)
        × (size ≡ min (get32 b (off + 28)) max)
        × ((i : ℕ)
            → buf i ≡ (
                if ltb i (min (get32 b (off + 28)) max)
                then file_byte 65536 (get16 b (off + 26)) i v
                else out i)))
unfolding fat_read
fat_read-contents name max out v b off m readable found enough =
    let fsize = get32 b (off + 28) in
    let c = get16 b (off + 26) in
    let r : Buffer = record { read = 0; out = out } in
    let whole : min fsize max - 0 ≡ min fsize max = omega arith in
    let g =
      read_chain-Reads fsize max v readable 65536 c r (omega arith)
        (ap (λ l. has_clusters 65536 c l v) whole ∙ enough) in
    let is_mounted : not v.mounted ≡ false = ap not m in
    rw (is_mounted, found, g.chain_done)
      (
        refl,
        (let rd = g.chain_read in omega arith),
        λ i. g.chain_out i ∙ from_start (min fsize max) (λ j. file_byte 65536 c j v) out i,
      )
