-- ===== src/Fat/File.antt =====
-- Reading, writing and deleting a file, kernel/fat.c. The payload of a file and the buffers are
-- functions from the index to a byte.
use nova_kernel.Prelude.{
  ℕ, zero, suc, ◌-◌, ◌+◌, ◌*◌, ◌/◌, ◌%◌, Bool, true, false, not, ◌&&◌, leb, ltb, ◌==◌,
  if◌then◌else◌, List, Option, none, some, update, min, get_or,
}
use nova_kernel.Prelude.Words.{add32, sub32, mul32}
use nova_kernel.Fat.Disk.{Sector, Volume, ata_read_sector, ata_write_sector, get16, get32}
use nova_kernel.Fat.Table.{fat_next_cluster, fat_set, fat_alloc_cluster, fat_free_chain}
use nova_kernel.Fat.Name.{norm_name}
use nova_kernel.Fat.Dir.{find_entry, dir_find_slot, Slot}

-- The buffer of a read and how much of it is filled.
pub record Buffer : Type 0 where
  pub read : ℕ
  pub out : ℕ → ℕ

-- memcpy(out + at, b, n)
abbrev pub copy_in : ℕ → ℕ → Sector → (ℕ → ℕ) → ℕ → ℕ
copy_in n at b out i = if leb at i && ltb i (at + n) then b (i - at) else out i

-- n = fsize - read; if (n > 512) n = 512; if (n > max - read) n = max - read;
abbrev pub chunk : ℕ → ℕ → ℕ → ℕ
chunk fsize max read = min (min (fsize - read) 512) (max - read)

module _ (fsize max : ℕ) where
  abbrev pub wants : Buffer → Bool
  wants r = ltb r.read fsize && ltb r.read max

  abbrev pub take_sector : Sector → Buffer → Buffer
  take_sector b r =
      let n = chunk fsize max r.read in record { read = r.read + n; out = copy_in n r.read b r.out }

  -- The loop over the sectors of a cluster, with `n` left from `lba` on; whether all could be read.
  unfoldable pub read_sectors : ℕ → ℕ → Volume → Buffer → Bool × Buffer
  read_sectors zero lba v r = (true, r)
  read_sectors (suc n) lba v r =
      if wants r
      then (elim (ata_read_sector lba v) [
        | none ↦ (false, r)
        | some b ↦ read_sectors n (lba + 1) v (take_sector b r)
      ])
      else (true, r)

  -- The walk along the chain, with the rounds that `guard` leaves.
  unfoldable pub read_chain : ℕ → ℕ → Volume → Buffer → Bool × Buffer
  read_chain zero c v r = (true, r)
  read_chain (suc fuel) c v r =
      let got = read_sectors v.spc (v.data_lba + (c - 2) * v.spc) v r in
      let rest = read_chain fuel (fat_next_cluster c v) v got.1 in
      if leb 2 c && ltb c 0xFF0 && wants r then (if got.0 then rest else got) else (true, r)

-- The result, `*size` (0 before the call) and the buffer.
unfoldable pub fat_read : List ℕ → ℕ → (ℕ → ℕ) → Volume → Bool × ℕ × (ℕ → ℕ)
fat_read name max out v =
    if not v.mounted then (false, 0, out) else elim (find_entry (norm_name name) v) [
      | none ↦ (false, 0, out)
      | some (b, off) ↦
          let fsize = get32 b (off + 28) in
          let (done, r) =
            read_chain fsize max 65536 (get16 b (off + 26)) v (record { read = 0; out = out }) in
          if done then (true, min r.read fsize, r.out) else (false, 0, r.out)
    ]

unfoldable pub fat_delete : List ℕ → Volume → Bool × Volume
fat_delete name v = if not v.mounted then (false, v) else elim (dir_find_slot (norm_name name) v) [
  | none ↦ (false, v)
  | some slot ↦ if not slot.existed then (false, v) else elim (ata_read_sector slot.lba v) [
    | none ↦ (false, v)
    | some b ↦
        let w = ata_write_sector slot.lba (update b slot.off 0xE5) v in
        if w.0 then (true, fat_free_chain (get16 b (slot.off + 26)) w.1) else w
  ]
]

-- The first cluster of the new chain, the one that was taken last, and the volume.
pub record Chaining : Type 0 where
  pub first : ℕ
  pub prev : ℕ
  pub volume : Volume

abbrev pub release : ℕ → Volume → Volume
release first v = if not (first == 0) then fat_free_chain first v else v

-- One round of the loop that takes the clusters, with the cluster that was taken.
abbrev pub link : ℕ → Volume → Chaining → Chaining
link c v s = record {
  first = if s.first == 0 then c else s.first;
  prev = c;
  volume = if not (s.prev == 0) then (fat_set s.prev c v).1 else v;
}

-- That loop, with `n` clusters left to take; `none` is a full disk, with what is left of it.
unfoldable pub link_clusters : ℕ → Chaining → Bool × Chaining
link_clusters zero s = (true, s)
link_clusters (suc n) s =
    let (c, v) = fat_alloc_cluster s.volume in
    let rest = link_clusters n (link c v s) in
    if c == 0 then (false, record s { volume = release s.first v }) else rest

module _ (bytes : ℕ → ℕ) (len : ℕ) where
  -- the next 512 bytes of the payload, with zeros past its end
  abbrev pub payload : ℕ → Sector
  payload written i = if ltb (written + i) len then bytes (written + i) else 0

  -- The loop over the sectors of a cluster: whether all were written, how much of the payload is
  -- gone, and the volume.
  unfoldable pub write_sectors : ℕ → ℕ → ℕ → Volume → Bool × ℕ × Volume
  write_sectors zero lba written v = (true, written, v)
  write_sectors (suc n) lba written v =
      let w = ata_write_sector lba (payload written) v in
      let rest = write_sectors n (lba + 1) (min len (written + 512)) w.1 in
      if ltb written len
      then (if w.0 then rest else (false, min len (written + 512), w.1))
      else (true, written, v)

  -- The loop that streams the payload into the chain, with fuel for its rounds.
  unfoldable pub stream : ℕ → ℕ → ℕ → Volume → Option (Bool × Volume)
  stream zero c written v = none
  stream (suc fuel) c written v =
      let (done, written', v') = write_sectors v.spc (v.data_lba + (c - 2) * v.spc) written v in
      let rest = stream fuel (if ltb written' len then fat_next_cluster c v' else c) written' v' in
      if leb 2 c && ltb written len
      then (if done then rest else some (false, v'))
      else some (true, v)

-- e[i] for the 32 bytes of the entry of a file
abbrev pub entry_byte : List ℕ → ℕ → ℕ → ℕ → ℕ
entry_byte norm first len i =
    if i == 26
    then first % 256
    else if i == 27
    then first / 256 % 256
    else if i == 28
    then len % 256
    else if i == 29
    then len / 256 % 256
    else if i == 30
    then len / 65536 % 256
    else if i == 31
    then len / 16777216 % 256
    else if i == 11
    then 0x20
    else if ltb i 11
    then get_or norm i 0
    else 0

abbrev pub put_entry : List ℕ → ℕ → ℕ → ℕ → Sector → Sector
put_entry norm first len off b i =
    if leb off i && ltb i (off + 32) then entry_byte norm first len (i - off) else b i

-- the chain of the file that is replaced
abbrev pub drop_old : Slot → Volume → Bool × Volume
drop_old slot v = if not slot.existed then (true, v) else elim (ata_read_sector slot.lba v) [
  | none ↦ (false, v)
  | some b ↦ (true, fat_free_chain (get16 b (slot.off + 26)) v)
]

-- the directory entry, at the end
abbrev pub write_entry : List ℕ → ℕ → ℕ → Slot → Volume → Bool × Volume
write_entry norm first len slot v = elim (ata_read_sector slot.lba v) [
  | none ↦ (false, v)
  | some b ↦ ata_write_sector slot.lba (put_entry norm first len slot.off b) v
]

-- need = (len + per_cluster - 1) / per_cluster, in the arithmetic of u32
abbrev pub clusters_for : ℕ → Volume → ℕ
clusters_for len v =
    let per_cluster = mul32 v.spc 512 in sub32 (add32 len per_cluster) 1 / per_cluster

-- `fat_write` with a slot, once the old chain is gone
unfoldable pub write_at : List ℕ → (ℕ → ℕ) → ℕ → Slot → Volume → Option (Bool × Volume)
write_at norm bytes len slot v =
    let (linked, s) =
      link_clusters (clusters_for len v) (record { first = 0; prev = 0; volume = v }) in
    if linked
    then (elim (stream bytes len (len + 1) s.first 0 s.volume) [
      | none ↦ none
      | some (done, v') ↦ some (
          if done then write_entry norm s.first len slot v' else (false, fat_free_chain s.first v'))
    ])
    else some (false, s.volume)

-- `none` is a run without an end.
unfoldable pub fat_write : List ℕ → (ℕ → ℕ) → ℕ → Volume → Option (Bool × Volume)
fat_write name bytes len v =
    if not v.mounted then some (false, v) else elim (dir_find_slot (norm_name name) v) [
      | none ↦ some (false, v)
      | some slot ↦
          let (dropped, v') = drop_old slot v in
          if dropped then write_at (norm_name name) bytes len slot v' else some (false, v')
    ]
