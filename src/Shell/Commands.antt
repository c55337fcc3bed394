-- ===== src/Shell/Commands.antt =====
-- The commands of kernel/shell.c that work on the data disk. `none` is a command without a defined
-- end: a walk of the heap that goes round, a write without an end, or a text that is longer than the
-- buffer it is printed into.
use nova_kernel.Prelude.{
  ℕ, zero, suc, ◌+◌, ◌-◌, ◌/◌, ◌%◌, false, not, ◌&&◌, ltb, leb, ◌==◌, if◌then◌else◌, List, [], ◌∷◌,
  ◌++◌, length, Option, none, some, codes,
}
use nova_kernel.Prelude.Words.{add32}
use nova_kernel.Kheap.{kmalloc, kfree}
use nova_kernel.Fat.Table.{fat_free_bytes}
use nova_kernel.Fat.Dir.{fat_list, fat_stat}
use nova_kernel.Fat.File.{fat_read, fat_delete}
use nova_kernel.Printf.{
  Arg, word, text, finished, undefined, unfinished, ksprintf, digit, string_at,
}
use nova_kernel.Shell.{World, c_err, c_ok, con_putcs, con_write, puts, err, ok, is_nil}

-- ksprintf(buf, fmt, …) into a local buffer of `room` bytes, and con_write(buf, attr).
unfoldable pub con_printf : ℕ → ℕ → List ℕ → List Arg → World → Option World
con_printf room attr fmt args w = elim (ksprintf (λ i. 0) fmt args) [
  | undefined ↦ none
  | unfinished ↦ none
  | finished o ↦ if ltb o.idx room then some (con_write (string_at room 0 o.buf) attr w) else none
]

-- err(what); err(name); con_write("\n", C_ERR)
abbrev pub complain : List ℕ → List ℕ → World → World
complain what name w = con_write (codes "\n") c_err (err name (err what w))

-- A buffer of `size` bytes of the heap around a command, freed at its end.
abbrev pub with_buffer : ℕ → List ℕ → (World → Option World) → World → Option World
with_buffer size failed body w = elim (kmalloc size w.heap) [
  | none ↦ none
  | some (p, h) ↦
      let w' = record w { heap = h } in
      if p == 0 then some (err failed w') else elim (body w') [
        | none ↦ none
        | some w2 ↦ elim (kfree p w2.heap) [
          | none ↦ none
          | some h2 ↦ some (record w2 { heap = h2 })
        ]
      ]
]

-- The bytes from `at` on, `n` of them.
unfoldable pub bytes_of : ℕ → ℕ → (ℕ → ℕ) → List ℕ
bytes_of zero at buf = []
bytes_of (suc n) at buf = buf at ∷ bytes_of n (at + 1) buf

unfoldable pub cmd_cat : List ℕ → World → Option World
cmd_cat name w =
    with_buffer 4096 (codes "cat: out of heap\n")
      (λ w1.
        let (found, size, buf) = fat_read name 4096 (λ i. 0) w1.disk in
        let shown = con_putcs (bytes_of size 0 buf) w1 in
        if not found
        then some (complain (codes "cat: no such file: ") name w1)
        else if size == 0
        then some (puts (codes "(empty file)\n") w1)
        else some (if buf (size - 1) == 10 then shown else con_write (codes "\n") 0x0F shown))
      w

-- the two digits of a byte
abbrev pub hex2 : ℕ → List ℕ
hex2 b = digit false (b / 16) ∷ digit false (b % 16) ∷ []

-- The sixteen columns of a row, from column `i` on with `n` left.
unfoldable pub hex_columns : ℕ → ℕ → ℕ → (ℕ → ℕ) → List ℕ
hex_columns zero at size buf = []
hex_columns (suc n) at size buf =
    (if ltb at size then hex2 (buf at) else b' ' ∷ b' ' ∷ [])
    ++ (b' ' ∷ hex_columns n (at + 1) size buf)

abbrev pub printable : ℕ → ℕ
printable c = if leb 32 c && ltb c 127 then c else b'.'

unfoldable pub ascii_columns : ℕ → ℕ → ℕ → (ℕ → ℕ) → List ℕ
ascii_columns zero at size buf = []
ascii_columns (suc n) at size buf =
    let rest = ascii_columns n (at + 1) size buf in
    if ltb at size then printable (buf at) ∷ rest else []

-- what follows the offset
unfoldable pub hexdump_row : ℕ → ℕ → (ℕ → ℕ) → List ℕ
hexdump_row base size buf =
    hex_columns 16 base size buf ++ (b'|' ∷ (ascii_columns 16 base size buf ++ (b'|' ∷ 10 ∷ [])))

-- The rows from `base` on, with `n` rounds left. The offset and the row go into the same buffer.
unfoldable pub hexdump_rows : ℕ → ℕ → ℕ → (ℕ → ℕ) → World → Option World
hexdump_rows zero base size buf w = some w
hexdump_rows (suc n) base size buf w =
    if ltb base size
    then (elim (con_printf 80 0x0F (codes "%08x  ") (word base ∷ []) w) [
      | none ↦ none
      | some w' ↦ hexdump_rows n (base + 16) size buf (puts (hexdump_row base size buf) w')
    ])
    else some w

unfoldable pub cmd_hexdump : List ℕ → World → Option World
cmd_hexdump name w =
    with_buffer 4096 (codes "hexdump: out of heap\n")
      (λ w1.
        let (found, size, buf) = fat_read name 4096 (λ i. 0) w1.disk in
        if not found
        then some (complain (codes "hexdump: no such file: ") name w1)
        else elim (hexdump_rows 256 0 size buf w1) [
          | none ↦ none
          | some w2 ↦ con_printf 80 0x0F (codes "%u byte(s)\n") (word size ∷ []) w2
        ])
      w

-- The loop of `cmd_ls`, with the sum of the sizes.
unfoldable pub ls_rows : List (List ℕ × ℕ) → ℕ → World → Option (ℕ × World)
ls_rows [] total w = some (total, w)
ls_rows ((name, size) ∷ files) total w =
    elim (con_printf 64 0x0F (codes "  %-14s %8u B\n") (text name ∷ word size ∷ []) w) [
      | none ↦ none
      | some w' ↦ ls_rows files (add32 total size) w'
    ]

unfoldable pub cmd_ls : World → Option World
cmd_ls w = elim (fat_list 32 w.disk) [
  | none ↦ some (err (codes "ls: no FAT disk mounted\n") w)
  | some files ↦
      if is_nil files then some (puts (codes "(empty)\n") w) else elim (ls_rows files 0 w) [
        | none ↦ none
        | some (total, w') ↦
            con_printf 64 0x0F (codes "  %u file(s), %u B\n")
              (word (length files) ∷ word total ∷ []) w'
      ]
]

unfoldable pub cmd_df : World → Option World
cmd_df w =
    if not w.disk.mounted
    then some (err (codes "df: no FAT disk mounted\n") w)
    else con_printf 80 0x0F (codes "data disk: %u bytes free\n") (word (fat_free_bytes w.disk) ∷ [])
        w

-- one text after the other
abbrev pub then_printf : ℕ → List ℕ → List Arg → Option World → Option World
then_printf room fmt args none = none
then_printf room fmt args (some w) = con_printf room 0x0F fmt args w

unfoldable pub cmd_stat : List ℕ → World → Option World
cmd_stat name w = elim (fat_stat name w.disk) [
  | none ↦ some (complain (codes "stat: no such file: ") name w)
  | some st ↦
      let w1 = con_printf 96 0x0F (codes "name    : %s\n") (text name ∷ []) w in
      let w2 = then_printf 96 (codes "size    : %u bytes\n") (word st.size ∷ []) w1 in
      let w3 = then_printf 96 (codes "cluster : %u\n") (word st.cluster ∷ []) w2 in
      then_printf 96 (codes "attr    : 0x%x%s\n")
        (word st.attr ∷ text (if st.attr / 16 % 2 == 1 then codes " (directory)" else []) ∷ []) w3
]

unfoldable pub cmd_rm : List ℕ → World → World
cmd_rm name w =
    let (gone, disk) = fat_delete name w.disk in
    let w' = record w { disk = disk } in
    if not gone
    then complain (codes "rm: no such file: ") name w'
    else con_write (codes "\n") c_ok (ok name (ok (codes "removed: ") w'))
