-- ===== src/Shell/Tests.antt =====
-- Runs and witnesses of the shell.
use nova_kernel.Prelude.{
  ℕ, ◌≡◌, refl, true, false, arith, List, [], ◌∷◌, take, Option, none, some, codes, get_elem?,
}
use nova_kernel.Fat.Disk.{Volume}
use nova_kernel.Keyboard.{Keyboard, keyboard_handler, keyboard_getc}
use nova_kernel.Shell.{Shell, World, split, remember, hist_get, hist_max}
use nova_kernel.Shell.Complete.{
  complete, candidates, match_builtins, strncmp_eq, token_start, append_rest,
}
use nova_kernel.Shell.Run.{Machine, shell_key, shell_run}
use nova_kernel.Shell.Split.{words, split-words}
use nova_kernel.Shell.History.{Recent, recall, remember-recall}
use nova_kernel.Shell.Editor.{Fits, shell_run-Fits}
use nova_kernel.Shell.Arrows.{Quiet, is_history_key, keyboard-Quiet}

abbrev empty_disk : Volume
empty_disk = record {
  mounted = false;
  root_lba = 0;
  data_lba = 0;
  root_sectors = 0;
  fat_lba = 0;
  fat_sectors = 0;
  spc = 1;
  sector = λ l i. 0;
  readable = λ l. true;
  writable = λ l. true;
}

abbrev world : World
world = record {
  screen = record { cells = λ i. 0; tx = 0; ty = 0; cur_attr = 15; cursor = 0; fb = λ i. 0 };
  serial = [];
  heap = record { heap_head = 0; header = λ a. record { size = 0; free = 1; next = 0 } };
  disk = empty_disk;
}

abbrev idle : Machine → World → Option World
idle m w = some w

abbrev fresh : Shell
fresh = record { line = []; hist = λ i. []; hist_count = 0; hist_pos = none; world = world }

fresh-Fits : Fits fresh
fresh-Fits = record { line = omega arith; hist = λ i. omega arith }

split-words_example : split (codes "cat  a.txt ") 16 ≡ take 15 (words (codes "cat  a.txt "))
split-words_example = split-words (codes "cat  a.txt ") 16

words_example : words (codes "cat  a.txt ") ≡ codes "cat" ∷ codes "a.txt" ∷ []
unfolding words
words_example = refl

echo_words : words (codes " echo a   b") ≡ codes "echo" ∷ codes "a" ∷ codes "b" ∷ []
unfolding words
echo_words = refl

fresh-Recent : Recent [] fresh
fresh-Recent = record { counted = refl; held = λ back lt lt'. absurd (omega (arith, lt')) }

remember-recall_example :
    Recent (recall (codes "ls") []) (remember (codes "ls") fresh)
    × ((back : ℕ)
        → hist_get back (remember (codes "ls") fresh)
          ≡ get_elem? (take hist_max (recall (codes "ls") [])) back)
remember-recall_example =
    remember-recall (codes "ls") [] fresh (omega arith) (omega arith) fresh-Recent

-- "he", the tabulator and "xx"
abbrev typed : List ℕ
typed = b'h' ∷ b'e' ∷ b'l' ∷ 9 ∷ b'x' ∷ []

typed_line : (s : Shell) × (shell_run idle typed fresh ≡ some s) × (s.line ≡ codes "helpx")
unfolding shell_run shell_key complete candidates match_builtins strncmp_eq token_start append_rest
typed_line = (_, refl, refl)

shell_run-Fits_example : Fits typed_line.0
shell_run-Fits_example = shell_run-Fits idle typed fresh typed_line.0 fresh-Fits typed_line.1

abbrev keys : Keyboard
keys = record { kbuf = λ i. 0; head = 0; tail = 0; shift = false; caps = false; extended = true }

keyboard-Quiet_example :
    Quiet (keyboard_handler 0x48 keys)
    × Quiet (keyboard_getc keys).1
    × (is_history_key (keyboard_getc keys).0 ≡ false)
keyboard-Quiet_example = keyboard-Quiet 0x48 keys (record { none_held = λ i. refl })
