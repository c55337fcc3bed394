-- ===== src/Shell/Run.antt =====
-- Writing a file from the shell, the choice of a command and the main loop, kernel/shell.c.
use nova_kernel.Prelude.{
  ℕ, zero, suc, ◌+◌, ◌-◌, Bool, true, false, not, ◌&&◌, ◌||◌, ltb, leb, ◌==◌, if◌then◌else◌, ◌%◌,
  List, [], ◌∷◌, ◌++◌, length, take, Option, none, some, get_or, codes,
}
use nova_kernel.Prelude.Words.{add32, sub32}
use nova_kernel.Vga.{vga_clear}
use nova_kernel.Keyboard.{Keyboard, keyboard_getc}
use nova_kernel.Fat.Dir.{fat_stat}
use nova_kernel.Fat.File.{fat_read, fat_write}
use nova_kernel.Printf.{word, text}
use nova_kernel.Shell.{
  Shell, World, line_max, argv_max, c_ok, con_putc, con_write, putsn, err, prompt, redraw_line,
  remember, hist_get, split, str_eq,
}
use nova_kernel.Shell.Texts.{help_text, about_text}
use nova_kernel.Shell.Complete.{complete}
use nova_kernel.Shell.Commands.{con_printf, cmd_cat, cmd_hexdump, cmd_ls, cmd_df, cmd_stat, cmd_rm}

unfoldable pub skip_spaces : List ℕ → List ℕ
skip_spaces [] = []
skip_spaces (c ∷ cs) = let rest = skip_spaces cs in if c == b' ' then rest else c ∷ cs

-- The characters up to a space, and what is behind it; `none` when there is no space.
unfoldable pub to_space : List ℕ → List ℕ × Option (List ℕ)
to_space [] = ([], none)
to_space (c ∷ cs) =
    let rest = to_space cs in if c == b' ' then ([], some cs) else (c ∷ rest.0, rest.1)

-- What stands in the buffer before the text: its size and the bytes, or the error.
pub data Before : Type 0 where
  ready : (size : ℕ) (buf : ℕ → ℕ) → Before
  too_large : Before
  read_failed : Before

unfoldable pub old_contents : Bool → List ℕ → ℕ → World → Before
old_contents append_mode name tlen w =
    let room = sub32 4096 tlen in
    let (found, size, buf) = fat_read name room (λ i. 0) w.disk in
    if not append_mode then ready 0 (λ i. 0) else elim (fat_stat name w.disk) [
      | none ↦ ready 0 (λ i. 0)
      | some st ↦
          if ltb room st.size then too_large else if not found then read_failed else ready size buf
    ]

-- for (i = 0; i < tlen; i++) buf[size + i] = text[i]
abbrev pub append_text : ℕ → (ℕ → ℕ) → List ℕ → ℕ → ℕ
append_text size buf s i =
    if leb size i && ltb i (size + length s) then get_or s (i - size) 0 else buf i

unfoldable pub cmd_write : List ℕ → Bool → World → Option World
cmd_write args append_mode w =
    let (name, behind) = to_space (skip_spaces args) in
    elim behind [
      | none ↦ some (
          err
            (if append_mode
              then codes "append: usage: append <file> <text>\n"
              else codes "write: usage: write <file> <text>\n")
            w)
      | some rest ↦
          let s = skip_spaces rest in
          elim (old_contents append_mode name (length s) w) [
            | too_large ↦ some (err (codes "append: file too large\n") w)
            | read_failed ↦ some (err (codes "append: read failed\n") w)
            | ready size buf ↦
                let total = add32 size (length s) in
                elim (fat_write name (append_text size buf s) total w.disk) [
                  | none ↦ none
                  | some (done, disk) ↦
                      let w' = record w { disk = disk } in
                      if not done
                      then some (err (codes "write: failed (disk full or directory full)\n") w')
                      else con_printf 96 c_ok (codes "%s: %s (%u bytes)\n")
                          (text (if append_mode then codes "appended" else codes "wrote")
                            ∷ text name
                            ∷ word total
                            ∷ [])
                          w'
                ]
          ]
    ]

-- The buffer `tail`, while it holds less than LINE_MAX - 2 characters.
abbrev pub has_place : List ℕ → Bool
has_place tail = ltb (length tail) (line_max - 2)

unfoldable pub put_chars : List ℕ → List ℕ → List ℕ
put_chars [] tail = tail
put_chars (c ∷ cs) tail =
    let rest = put_chars cs (tail ++ (c ∷ [])) in if has_place tail then rest else tail

-- The loop that joins the arguments with single spaces; `first` at the first of them.
unfoldable pub join_from : Bool → List (List ℕ) → List ℕ → List ℕ
join_from first [] tail = tail
join_from first (w ∷ ws) tail =
    let rest =
      join_from false ws (put_chars w (if first then tail else put_chars (b' ' ∷ []) tail)) in
    if has_place tail then rest else tail

abbrev pub join_args : List (List ℕ) → List ℕ
join_args args = join_from true args []

-- The commands that look at or start other parts of the machine, or reset it.
pub data Machine : Type 0 where
  meminfo : Machine
  tasks : Machine
  ps : Machine
  uptime : Machine
  gui : Machine
  reboot : Machine
  run : List ℕ → Machine

-- a command with a file operand
abbrev pub with_operand :
    List (List ℕ) → List ℕ → (List ℕ → World → Option World) → World → Option World
with_operand [] missing cmd w = some (err missing w)
with_operand (name ∷ rest) missing cmd w = cmd name w

abbrev pub write_usage : Bool → List ℕ
write_usage append_mode =
    if append_mode
    then codes "append: usage: append <file> <text>\n"
    else codes "write: usage: write <file> <text>\n"

abbrev pub backspace : Shell → Shell
backspace s =
    if ltb 0 (length s.line)
    then record s {
      line = take (length s.line - 1) s.line;
      world = con_putc 8 (con_putc b' ' (con_putc 8 s.world));
    }
    else s

abbrev pub older : Shell → Shell
older s =
    let want : ℕ = elim s.hist_pos [ none ↦ 0 | some p ↦ p + 1 ] in
    elim (hist_get want s) [
      | none ↦ s
      | some h ↦ redraw_line (record s { hist_pos = some want; line = take (line_max - 1) h })
    ]

-- An older line that is on the screen has a newer one before it.
abbrev pub newer : Shell → Shell
newer s = redraw_line (elim s.hist_pos [
  | none ↦ record s { hist_pos = none; line = [] }
  | some zero ↦ record s { hist_pos = none; line = [] }
  | some (suc p) ↦ elim (hist_get p s) [
    | none ↦ record s { hist_pos = some p }
    | some h ↦ record s { hist_pos = some p; line = take (line_max - 1) h }
  ]
])

abbrev pub type_char : ℕ → Shell → Shell
type_char c s =
    if ltb (length s.line) (line_max - 1)
    then record s { line = s.line ++ (c % 256 ∷ []); world = con_putc (c % 256) s.world }
    else s

module _ (machine : Machine → World → Option World) where
  -- the command `c` with the arguments behind it
  unfoldable pub dispatch : List ℕ → List (List ℕ) → World → Option World
  dispatch c args w =
      if str_eq c (codes "help")
      then some (con_write help_text 0x0F w)
      else if str_eq c (codes "clear")
      then some (record w { screen = vga_clear 0x0F w.screen })
      else if str_eq c (codes "meminfo")
      then machine meminfo w
      else if str_eq c (codes "tasks")
      then machine tasks w
      else if str_eq c (codes "ps")
      then machine ps w
      else if str_eq c (codes "uptime")
      then machine uptime w
      else if str_eq c (codes "gui")
      then (elim (machine gui w) [
        | none ↦ none
        | some w' ↦ some (record w' { screen = vga_clear 0x0F w'.screen })
      ])
      else if str_eq c (codes "about")
      then some (con_write about_text 0x0F w)
      else if str_eq c (codes "ls")
      then cmd_ls w
      else if str_eq c (codes "reboot")
      then machine reboot (err (codes "rebooting...\n") w)
      else if str_eq c (codes "cat")
      then with_operand args (codes "cat: missing file operand (try `ls`)\n") cmd_cat w
      else if str_eq c (codes "hexdump")
      then with_operand args (codes "hexdump: missing file operand\n") cmd_hexdump w
      else if str_eq c (codes "stat")
      then with_operand args (codes "stat: missing file operand\n") cmd_stat w
      else if str_eq c (codes "df")
      then cmd_df w
      else if str_eq c (codes "write") || str_eq c (codes "append")
      then (if ltb (length args) 2
          then some (err (write_usage (not (str_eq c (codes "write")))) w)
          else cmd_write (join_args args) (str_eq c (codes "append")) w)
      else if str_eq c (codes "rm")
      then with_operand args (codes "rm: missing file operand\n") (λ name w'. some (cmd_rm name w'))
          w
      else if str_eq c (codes "run")
      then with_operand args (codes "run: missing program name\n") (λ name. machine (run name)) w
      else if str_eq c (codes "echo")
      then some (putsn (join_args args) w)
      else some (err (codes "  (try `help`)\n") (err c (err (codes "unknown command: ") w)))

  unfoldable pub execute : List ℕ → World → Option World
  execute cmdline w = elim (split cmdline argv_max) [ [] ↦ some w | c ∷ args ↦ dispatch c args w ]

  -- The Enter key: the line is remembered and executed, and a fresh one begins.
  abbrev pub enter_line : Shell → Option Shell
  enter_line s =
      let s1 = remember s.line (record s { world = con_write (codes "\n") 0x0F s.world }) in
      elim (execute s.line s1.world) [
        | none ↦ none
        | some w ↦ some (record s1 { line = []; hist_pos = none; world = prompt w })
      ]

  -- One round of the main loop with the key `c`, 0 for none.
  unfoldable pub shell_key : ℕ → Shell → Option Shell
  shell_key c0 s =
      let c1 = if c0 == 13 then 10 else c0 in
      let c = if c1 == 0x7F then 8 else c1 in
      if c == 0
      then some s
      else if c == 10
      then enter_line s
      else if c == 8
      then some (backspace s)
      else if c == 9
      then some (complete s)
      else if c == 0x100 + b'A'
      then some (older s)
      else if c == 0x100 + b'B'
      then some (newer s)
      else if leb b' ' c && ltb c 0x100
      then some (type_char c s)
      else some s

  -- The keys that come, one after the other.
  unfoldable pub shell_run : List ℕ → Shell → Option Shell
  shell_run [] s = some s
  shell_run (c ∷ cs) s = elim (shell_key c s) [ none ↦ none | some s' ↦ shell_run cs s' ]

-- Where a key comes from: the keyboard, or else the serial port, with `none` for -1.
unfoldable pub next_key : Option ℕ → Keyboard → ℕ × Keyboard
next_key received k =
    let (c, k') = keyboard_getc k in
    if not (c == 0) then (c, k') else elim received [ none ↦ (0, k') | some b ↦ (b, k') ]
