-- ===== src/Keyboard/Decode.antt =====
-- The scan-code decoder of kernel/keyboard.c, and the driver as a whole against a queue of keys.
use nova_kernel.Prelude.{
  ℕ, ◌+◌, ◌<◌, ◌≡◌, refl, ap, ap₂, ◌∙◌, Bool, true, false, not, arith, List, [], ◌∷◌, ◌==◌, ◌||◌,
  if◌then◌else◌, leb, Option, none, some,
}
use nova_kernel.Prelude.Bytes.{passes, passes-at, bool_eq, bool_eq_sound}
use nova_kernel.Keyboard.{
  Keyboard, kb_enqueue, keyboard_handler, keyboard_getc, translate, is_release, is_ext_key,
}
use nova_kernel.Keyboard.Queue.{
  InRange, contents, enqueue, dequeue, kb_enqueue-InRange, keyboard_getc-InRange,
  kb_enqueue_refines, keyboard_getc_refines,
}

-- what the decoder remembers between two scan codes
pub record Mods : Type 0 where
  pub shift : Bool
  pub caps : Bool
  pub extended : Bool

abbrev pub mods : Keyboard → Mods
mods k = record { shift = k.shift; caps = k.caps; extended = k.extended }

-- the key that a plain key press means: Caps Lock raises lower-case letters, Shift picks the
-- second table, and a code without a character means none
abbrev pub key_of : Mods → ℕ → Option ℕ
key_of m sc = let c = translate m.shift m.caps sc in if c == 0 then none else some c

abbrev pub ext_key_of : ℕ → Option ℕ
ext_key_of sc = if leb 128 sc then none else if is_ext_key sc then some (0x100 + sc) else none

-- The decoder: a scan code changes the modifiers and may mean a key.
unfoldable pub decode : Mods → ℕ → Mods × Option ℕ
decode m sc =
    if sc == 0xE0
    then (record m { extended = true }, none)
    else if m.extended
    then (record m { extended = false }, ext_key_of sc)
    else if sc == 0x2A || sc == 0x36
    then (record m { shift = true }, none)
    else if sc == 0xAA || sc == 0xB6
    then (record m { shift = false }, none)
    else if sc == 0x3A
    then (record m { caps = not m.caps }, none)
    else (m, if leb 128 sc then none else key_of m sc)

abbrev pub enqueue_key : Option ℕ → List ℕ → List ℕ
enqueue_key none q = q
enqueue_key (some c) q = enqueue c q

release_table : passes 256 (λ sc. bool_eq (is_release sc) (leb 128 sc)) ≡ true
unfolding passes is_release
release_table = refl

is_release_lem : (sc : ℕ) → sc < 256 → is_release sc ≡ leb 128 sc
is_release_lem sc lt = bool_eq_sound _ _ (passes-at _ 256 release_table lt)

abbrev set_mods : Mods → Keyboard → Keyboard
set_mods m k = record k { shift = m.shift; caps = m.caps; extended = m.extended }

abbrev put_key : Option ℕ → Keyboard → Keyboard
put_key none k = k
put_key (some c) k = kb_enqueue c k

handler_lem :
    (k : Keyboard) (sc : ℕ)
    → sc < 256
    → keyboard_handler sc k ≡ put_key (decode (mods k) sc).1 (set_mods (decode (mods k) sc).0 k)
unfolding keyboard_handler decode
handler_lem k sc lt = rw (is_release_lem sc lt) (ground arith)

contents-put_key :
    (key : Option ℕ) (k : Keyboard)
    → InRange k
    → (contents (put_key key k) ≡ enqueue_key key (contents k)) × InRange (put_key key k)
contents-put_key none k v = (refl, v)
contents-put_key (some c) k v = (kb_enqueue_refines k c v, kb_enqueue-InRange c v)

mods-put_key : (key : Option ℕ) (k : Keyboard) → mods (put_key key k) ≡ mods k
unfolding kb_enqueue
mods-put_key none k = refl
mods-put_key (some c) k = ground arith

-- The handler of a scan-code byte does what the decoder says: it sets the modifiers, and puts the
-- key, if there is one, into the queue of pending keys.
pub keyboard_handler_refines :
    (k : Keyboard) (sc : ℕ)
    → InRange k
    → sc < 256
    → let (m, key) = decode (mods k) sc in
      let k' = keyboard_handler sc k in
      (mods k' ≡ m) × (contents k' ≡ enqueue_key key (contents k)) × InRange k'
keyboard_handler_refines k sc v lt =
    let (m, key) = decode (mods k) sc in
    let k1 = set_mods m k in
    let v1 : InRange k1 = record { head = v.head; tail = v.tail } in
    let (q, v') = contents-put_key key k1 v1 in
    rw (handler_lem k sc lt) (mods-put_key key k1, q, v')

-- what happens to the driver: the controller delivers a byte, or a client takes a key
pub data Event : Type 0 where
  scan : ℕ → Event
  read : Event

abbrev pub AllBytes : List Event → Type 0
AllBytes [] = Unit {0}
AllBytes (scan sc ∷ es) = (sc < 256) × AllBytes es
AllBytes (read ∷ es) = AllBytes es

-- the keys that the reads of a history return
unfoldable pub run : Keyboard → List Event → List ℕ
run k [] = []
run k (scan sc ∷ es) = run (keyboard_handler sc k) es
run k (read ∷ es) = let (c, k') = keyboard_getc k in c ∷ run k' es

-- the same of the decoder and a queue of at most 255 keys
unfoldable pub run_queue : Mods → List ℕ → List Event → List ℕ
run_queue m q [] = []
run_queue m q (scan sc ∷ es) = let (m', key) = decode m sc in run_queue m' (enqueue_key key q) es
run_queue m q (read ∷ es) = let (c, q') = dequeue q in c ∷ run_queue m q' es

mods-keyboard_getc : (k : Keyboard) → mods (keyboard_getc k).1 ≡ mods k
unfolding keyboard_getc
mods-keyboard_getc k = ground arith

-- No history of scan-code bytes and reads tells the driver from the decoder in front of a queue
-- of at most 255 keys, if the indices of its ring are in range at the start.
pub run_refines :
    (es : List Event) (k : Keyboard)
    → InRange k
    → AllBytes es
    → run k es ≡ run_queue (mods k) (contents k) es
unfolding run run_queue
run_refines [] k v b = refl
run_refines (scan sc ∷ es) k v (lt, b) =
    let (m, q, v') = keyboard_handler_refines k sc v lt in
    run_refines es (keyboard_handler sc k) v' b ∙ ap₂ (λ x y. run_queue x y es) m q
run_refines (read ∷ es) k v b =
    let e = keyboard_getc_refines k v in
    ap₂ ◌∷◌ (ap (λ (p : ℕ × List ℕ). p.0) e) (
      run_refines es (keyboard_getc k).1 (keyboard_getc-InRange v) b
      ∙ ap₂ (λ x y. run_queue x y es) (mods-keyboard_getc k) (ap (λ (p : ℕ × List ℕ). p.1) e))
