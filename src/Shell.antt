-- ===== src/Shell.antt =====
-- The kernel shell, kernel/shell.c: the console, the history and the splitting of a line. A string is
-- the list of its bytes, without the NUL; `line` is what stands before `line_len`.
pub mod Complete
pub mod Texts
pub mod Commands
pub mod Run
pub mod Split
pub mod Join
pub mod History
pub mod Editor
pub mod Arrows
mod Tests
use nova_kernel.Prelude.{
  ℕ, zero, suc, ◌+◌, ◌-◌, ◌%◌, Bool, true, false, not, ◌&&◌, ◌||◌, ltb, leb, ◌==◌, if◌then◌else◌,
  update, List, [], ◌∷◌, ◌++◌, length, take, drop, replicate, Option, none, some,
}
use nova_kernel.Prelude.Words.{add32}
use nova_kernel.Vga.{Vga, vga_putc, vga_write}
use nova_kernel.Kheap.{Heap}
use nova_kernel.Fat.Disk.{Volume}

abbrev pub line_max : ℕ
line_max = 128

abbrev pub argv_max : ℕ
argv_max = 16

abbrev pub hist_max : ℕ
hist_max = 8

abbrev pub c_ok : ℕ
c_ok = 0x0A

abbrev pub c_err : ℕ
c_err = 0x0C

abbrev pub c_dim : ℕ
c_dim = 0x07

-- What the commands work on: the text page, what went to the serial port (the last byte first), the
-- heap and the data disk.
pub record World : Type 0 where
  pub screen : Vga
  pub serial : List ℕ
  pub heap : Heap
  pub disk : Volume

-- `hist_pos` is none for -1.
pub record Shell : Type 0 where
  pub line : List ℕ
  pub hist : ℕ → List ℕ
  pub hist_count : ℕ
  pub hist_pos : Option ℕ
  pub world : World

unfoldable pub serial_puts : List ℕ → List ℕ → List ℕ
serial_puts [] sent = sent
serial_puts (c ∷ cs) sent = serial_puts cs (c ∷ sent)

unfoldable pub con_putc : ℕ → World → World
con_putc c w = record w { screen = vga_putc c 0x0F w.screen; serial = c ∷ w.serial }

unfoldable pub con_write : List ℕ → ℕ → World → World
con_write s attr w = record w {
  screen = vga_write s attr w.screen;
  serial = serial_puts s w.serial;
}

abbrev pub puts : List ℕ → World → World
puts s w = con_write s 0x0F w

abbrev pub err : List ℕ → World → World
err s w = con_write s c_err w

abbrev pub ok : List ℕ → World → World
ok s w = con_write s c_ok w

abbrev pub putsn : List ℕ → World → World
putsn s w = con_write (10 ∷ []) 0x0F (con_write s 0x0F w)

-- "novaos> "
abbrev pub prompt_text : List ℕ
prompt_text = b'n' ∷ b'o' ∷ b'v' ∷ b'a' ∷ b'o' ∷ b's' ∷ b'>' ∷ b' ' ∷ []

abbrev pub prompt : World → World
prompt w = con_write prompt_text 0x0B w

unfoldable pub con_putcs : List ℕ → World → World
con_putcs [] w = w
con_putcs (c ∷ cs) w = con_putcs cs (con_putc c w)

unfoldable pub redraw_line : Shell → Shell
redraw_line s =
    let w1 = con_write (13 ∷ []) 0x0F s.world in
    let w2 = con_putcs (replicate 80 b' ') w1 in
    let w3 = prompt (con_write (13 ∷ []) 0x0F w2) in record s { world = con_putcs s.line w3 }

-- strcmp(a, b) == 0
unfoldable pub str_eq : List ℕ → List ℕ → Bool
str_eq [] [] = true
str_eq [] (y ∷ ys) = false
str_eq (x ∷ xs) [] = false
str_eq (x ∷ xs) (y ∷ ys) = let rest = str_eq xs ys in if x == y then rest else false

abbrev pub is_nil {ℓ} : {A : Type ℓ} → List A → Bool
is_nil [] = true
is_nil (x ∷ xs) = false

-- An immediate duplicate is skipped.
unfoldable pub remember : List ℕ → Shell → Shell
remember cmd s =
    if is_nil cmd
    then s
    else if ltb 0 s.hist_count && str_eq (s.hist ((s.hist_count - 1) % hist_max)) cmd
    then s
    else record s {
      hist = update s.hist (s.hist_count % hist_max) (take (line_max - 1) cmd);
      hist_count = add32 s.hist_count 1;
      hist_pos = none;
    }

-- `none` is NULL.
unfoldable pub hist_get : ℕ → Shell → Option (List ℕ)
hist_get back s =
    if leb hist_max back || leb s.hist_count back
    then none
    else some (s.hist ((s.hist_count - 1 - back) % hist_max))

abbrev pub is_blank : ℕ → Bool
is_blank c = c == b' ' || c == 9

unfoldable pub skip_blanks : List ℕ → List ℕ
skip_blanks [] = []
skip_blanks (c ∷ cs) = let rest = skip_blanks cs in if is_blank c then rest else c ∷ cs

-- The characters up to a blank or the end, and what stands behind that blank.
unfoldable pub token : List ℕ → List ℕ × List ℕ
token [] = ([], [])
token (c ∷ cs) = let rest = token cs in if is_blank c then ([], cs) else (c ∷ rest.0, rest.1)

-- The loop of `split` with `n` tokens found: the tokens that it adds. A round takes a character at
-- least, so that the rounds of `split` are enough.
unfoldable pub split_from : ℕ → ℕ → ℕ → List ℕ → List (List ℕ)
split_from zero max n s = []
split_from (suc fuel) max n s =
    let s' = skip_blanks s in
    let (w, rest) = token s' in
    let others = split_from fuel max (n + 1) rest in
    if is_nil s' then [] else if leb (max - 1) n then [] else w ∷ others

unfoldable pub split : List ℕ → ℕ → List (List ℕ)
split s max = split_from (suc (length s)) max 0 s
