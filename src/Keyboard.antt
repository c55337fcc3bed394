-- ===== src/Keyboard.antt =====
-- The PS/2 keyboard driver, kernel/keyboard.c: the scan-code decoder and the ring of pending keys.
-- The byte that `inb(0x60)` reads is the argument of the handler. `keyboard_init` only talks to
-- the hardware.
pub mod Queue
pub mod Decode
mod Tests
use nova_kernel.Prelude.{
  ℕ, ◌+◌, ◌-◌, ◌%◌, Bool, true, false, not, ◌&&◌, ◌||◌, leb, ◌==◌, if◌then◌else◌, update, List, [],
  ◌∷◌, get_or, bit_and,
}

abbrev pub kb_buf_size : ℕ
kb_buf_size = 256

abbrev pub key_ext : ℕ
key_ext = 0x100

pub record Keyboard : Type 0 where
  pub kbuf : ℕ → ℕ
  pub head : ℕ
  pub tail : ℕ
  pub shift : Bool
  pub caps : Bool
  pub extended : Bool

-- Both tables end in zeros, which `get_or` gives past the entries that are written here.
abbrev pub sc_plain : List ℕ
sc_plain =
    0 ∷ 27 ∷ b'1' ∷ b'2' ∷ b'3' ∷ b'4' ∷ b'5' ∷ b'6' ∷ b'7' ∷ b'8' ∷ b'9' ∷ b'0' ∷ b'-' ∷ b'=' ∷ 8
    ∷ 9 ∷ b'q' ∷ b'w' ∷ b'e' ∷ b'r' ∷ b't' ∷ b'y' ∷ b'u' ∷ b'i' ∷ b'o' ∷ b'p' ∷ b'[' ∷ b']' ∷ 10 ∷ 0
    ∷ b'a' ∷ b's' ∷ b'd' ∷ b'f' ∷ b'g' ∷ b'h' ∷ b'j' ∷ b'k' ∷ b'l' ∷ b';' ∷ 39 ∷ 96 ∷ 0 ∷ 92 ∷ b'z'
    ∷ b'x' ∷ b'c' ∷ b'v' ∷ b'b' ∷ b'n' ∷ b'm' ∷ b',' ∷ b'.' ∷ b'/' ∷ 0 ∷ b'*' ∷ 0 ∷ 32 ∷ []

abbrev pub sc_shift : List ℕ
sc_shift =
    0 ∷ 27 ∷ b'!' ∷ b'@' ∷ b'#' ∷ b'$' ∷ b'%' ∷ b'^' ∷ b'&' ∷ b'*' ∷ b'(' ∷ b')' ∷ b'_' ∷ b'+' ∷ 8
    ∷ 9 ∷ b'Q' ∷ b'W' ∷ b'E' ∷ b'R' ∷ b'T' ∷ b'Y' ∷ b'U' ∷ b'I' ∷ b'O' ∷ b'P' ∷ b'{' ∷ b'}' ∷ 10 ∷ 0
    ∷ b'A' ∷ b'S' ∷ b'D' ∷ b'F' ∷ b'G' ∷ b'H' ∷ b'J' ∷ b'K' ∷ b'L' ∷ b':' ∷ 34 ∷ b'~' ∷ 0 ∷ b'|'
    ∷ b'Z' ∷ b'X' ∷ b'C' ∷ b'V' ∷ b'B' ∷ b'N' ∷ b'M' ∷ b'<' ∷ b'>' ∷ b'?' ∷ 0 ∷ b'*' ∷ 0 ∷ 32 ∷ []

-- `kb_enqueue` and `kb_enqueue_u16` differ only in the width of the key.
unfoldable pub kb_enqueue : ℕ → Keyboard → Keyboard
kb_enqueue c k =
    let next = (k.head + 1) % kb_buf_size in
    if next == k.tail then k else record k { kbuf = update k.kbuf k.head c; head = next }

-- The cases of the `switch` on an extended code.
unfoldable pub is_ext_key : ℕ → Bool
is_ext_key sc =
    sc == 0x48
    || sc == 0x50
    || sc == 0x4B
    || sc == 0x4D
    || sc == 0x47
    || sc == 0x4F
    || sc == 0x49
    || sc == 0x51
    || sc == 0x53

-- The character of a plain key press.
unfoldable pub translate : Bool → Bool → ℕ → ℕ
translate shift caps sc =
    let c = get_or (if shift then sc_shift else sc_plain) (bit_and sc 0x7F) 0 in
    if leb b'a' c && leb c b'z' && caps then c - 32 else c

-- sc & 0x80
unfoldable pub is_release : ℕ → Bool
is_release sc = not (bit_and sc 0x80 == 0)

unfoldable pub keyboard_handler : ℕ → Keyboard → Keyboard
keyboard_handler sc k =
    let k' = record k { extended = false } in
    let c = translate k.shift k.caps sc in
    if sc == 0xE0
    then record k { extended = true }
    else if k.extended
    then (if is_release sc then k' else if is_ext_key sc then kb_enqueue (key_ext + sc) k' else k')
    else if sc == 0x2A || sc == 0x36
    then record k { shift = true }
    else if sc == 0xAA || sc == 0xB6
    then record k { shift = false }
    else if sc == 0x3A
    then record k { caps = not k.caps }
    else if is_release sc
    then k
    else if not (c == 0)
    then kb_enqueue c k
    else k

unfoldable pub keyboard_pending : Keyboard → Bool
keyboard_pending k = not (k.head == k.tail)

unfoldable pub keyboard_getc : Keyboard → ℕ × Keyboard
keyboard_getc k =
    if k.head == k.tail
    then (0, k)
    else (k.kbuf k.tail, record k { tail = (k.tail + 1) % kb_buf_size })
