-- ===== src/Shell/Complete.antt =====
-- Tab completion, kernel/shell.c.
use nova_kernel.Prelude.{
  ℕ, zero, suc, ◌+◌, ◌-◌, Bool, true, false, ◌&&◌, ltb, leb, ◌==◌, if◌then◌else◌, List, [], ◌∷◌,
  ◌++◌, length, drop, Option, none, some, get_or, codes,
}
use nova_kernel.Fat.Disk.{Volume}
use nova_kernel.Fat.Dir.{fat_list}
use nova_kernel.Shell.{Shell, line_max, c_dim, con_putc, con_write}

-- while (start > 0 && line[start - 1] != ' ') start--
unfoldable pub token_start : ℕ → List ℕ → ℕ
token_start zero line = 0
token_start (suc start) line =
    let further = token_start start line in
    if get_or line start 0 == b' ' then suc start else further

-- strncmp(a, b, n) == 0
unfoldable pub strncmp_eq : List ℕ → List ℕ → ℕ → Bool
strncmp_eq a b zero = true
strncmp_eq [] [] (suc n) = true
strncmp_eq [] (y ∷ ys) (suc n) = false
strncmp_eq (x ∷ xs) [] (suc n) = false
strncmp_eq (x ∷ xs) (y ∷ ys) (suc n) =
    let rest = strncmp_eq xs ys n in if x == y then rest else false

-- The comparison with a name of the disk: the token is a prefix of it, up to the case of its letters.
unfoldable pub same_name : List ℕ → List ℕ → Bool
same_name [] name = true
same_name (b ∷ bs) [] = false
same_name (b ∷ bs) (a ∷ name) =
    let rest = same_name bs name in
    if a == (if leb b'a' b && leb b b'z' then b - 32 else b) then rest else false

-- a name of the disk as a C string
unfoldable pub c_string : List ℕ → List ℕ
c_string [] = []
c_string (c ∷ cs) = let rest = c_string cs in if c == 0 then [] else c ∷ rest

abbrev pub builtins : List (List ℕ)
builtins =
    codes "help"
    ∷ codes "clear"
    ∷ codes "meminfo"
    ∷ codes "tasks"
    ∷ codes "ps"
    ∷ codes "ls"
    ∷ codes "cat"
    ∷ codes "hexdump"
    ∷ codes "run"
    ∷ codes "echo"
    ∷ codes "uptime"
    ∷ codes "gui"
    ∷ codes "about"
    ∷ codes "reboot"
    ∷ codes "stat"
    ∷ codes "df"
    ∷ codes "write"
    ∷ codes "append"
    ∷ codes "rm"
    ∷ []

-- How many names match, and the last of them.
pub record Found : Type 0 where
  pub count : ℕ
  pub last : Option (List ℕ)

unfoldable pub match_builtins : List ℕ → ℕ → List (List ℕ) → Found → Found
match_builtins line tlen [] f = f
match_builtins line tlen (name ∷ names) f =
    match_builtins line tlen names
      (if strncmp_eq name line tlen then record { count = f.count + 1; last = some name } else f)

unfoldable pub match_names : List ℕ → List (List ℕ × ℕ) → Found → Found
match_names tok [] f = f
match_names tok ((name, size) ∷ files) f = match_names tok files (
    if same_name tok (c_string name)
    then record { count = f.count + 1; last = some (c_string name) }
    else f)

abbrev pub lower : ℕ → ℕ
lower c = if leb b'A' c && leb c b'Z' then c + 32 else c

-- The rest of the match, for as long as the line has place.
unfoldable pub append_rest : List ℕ → Shell → Shell
append_rest [] s = s
append_rest (c ∷ cs) s =
    let s' = record s { line = s.line ++ (lower c ∷ []); world = con_putc (lower c) s.world } in
    let rest = append_rest cs s' in if ltb (length s.line) (line_max - 1) then rest else s

-- The candidates for the token that starts at `start`.
unfoldable pub candidates : ℕ → List ℕ → Volume → Found
candidates start line disk =
    let nothing : Found = record { count = 0; last = none } in
    if start == 0
    then match_builtins line (length line) builtins nothing
    else if disk.mounted
    then (elim (fat_list 32 disk) [
      | none ↦ nothing
      | some files ↦ match_names (drop start line) files nothing
    ])
    else nothing

unfoldable pub complete : Shell → Shell
complete s =
    let start = token_start (length s.line) s.line in
    let tlen = length s.line - start in
    let f = candidates start s.line s.world.disk in
    if tlen == 0 then s else elim f.last [
      | none ↦ s
      | some m ↦
          if f.count == 1
          then append_rest (drop tlen m) s
          else record s { world = con_write (codes "\n(multiple matches)\n") c_dim s.world }
    ]
