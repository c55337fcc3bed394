-- ===== src/Shell/Arrows.antt =====
-- The keys that the shell of kernel/shell.c reads from the driver of kernel/keyboard.c.
use nova_kernel.Prelude.{
  ℕ, zero, suc, ◌+◌, ◌%◌, ◌<◌, ◌≡◌, refl, Bool, true, false, not, ◌&&◌, ◌||◌, ltb, ◌==◌,
  if◌then◌else◌, arith, List, [], ◌∷◌, sym, Bool-cases, inl, inr, get_or, bit_and, update,
}
use nova_kernel.Keyboard.{
  Keyboard, sc_plain, sc_shift, translate, is_release, is_ext_key, kb_enqueue, key_ext,
  keyboard_handler, keyboard_getc,
}

-- a key that recalls a command of the history
abbrev pub is_history_key : ℕ → Bool
is_history_key c = c == 0x100 + b'A' || c == 0x100 + b'B'

-- no such key in the ring
pub record Quiet (k : Keyboard) : Type 0 where
  pub none_held : (i : ℕ) → is_history_key (k.kbuf i) ≡ false

all_below : ℕ → List ℕ → Bool
all_below n [] = true
all_below n (c ∷ cs) = ltb c n && all_below n cs

get_or-below : (n : ℕ) (cs : List ℕ) (i : ℕ) → 0 < n → all_below n cs ≡ true → get_or cs i 0 < n
unfolding all_below
get_or-below n [] i pos h = pos
get_or-below n (c ∷ cs) zero pos h = ground arith
get_or-below n (c ∷ cs) (suc i) pos h = get_or-below n cs i pos (ground arith)

translate-lt : (shift caps : Bool) (sc : ℕ) → translate shift caps sc < 256
unfolding translate all_below
translate-lt true caps sc =
    let h = get_or-below 256 sc_shift (bit_and sc 0x7F) (omega arith) refl in ground arith
translate-lt false caps sc =
    let h = get_or-below 256 sc_plain (bit_and sc 0x7F) (omega arith) refl in ground arith

keep : (b : Bool) (x y : Keyboard) → Quiet x → Quiet y → Quiet (if b then x else y)
keep true x y hx hy = hx
keep false x y hx hy = hy

kb_enqueue-Quiet :
    (c : ℕ) (k : Keyboard) → is_history_key c ≡ false → Quiet k → Quiet (kb_enqueue c k)
unfolding kb_enqueue
kb_enqueue-Quiet c k h q =
    keep ((k.head + 1) % 256 == k.tail) _ _ q
      (record { none_held = λ i. let h' = q.none_held i in place i h' })
  where
    place :
        (i : ℕ)
        → is_history_key (k.kbuf i) ≡ false
        → is_history_key (update k.kbuf k.head c i) ≡ false
    place i h' = elim (Bool-cases (k.head == i)) [ inl e ↦ rw (e) h | inr e ↦ rw (e) h' ]

arrow_other : (sc : ℕ) → is_ext_key sc ≡ true → is_history_key (key_ext + sc) ≡ false
unfolding is_ext_key
arrow_other sc h = ground arith

keyboard_handler-Quiet : (sc : ℕ) (k : Keyboard) → Quiet k → Quiet (keyboard_handler sc k)
unfolding keyboard_handler
keyboard_handler-Quiet sc k q =
    let k' = record k { extended = false } in
    let c = translate k.shift k.caps sc in
    let q' : Quiet k' = record { none_held = q.none_held } in
    let low = translate-lt k.shift k.caps sc in
    keep (sc == 0xE0) _ _ (record { none_held = q.none_held })
      (keep k.extended _ _ (keep (is_release sc) _ _ q' (arrow_kept (is_ext_key sc) k' q' refl)) (
        keep (sc == 0x2A || sc == 0x36) _ _ (record { none_held = q.none_held })
          (keep (sc == 0xAA || sc == 0xB6) _ _ (record { none_held = q.none_held })
            (keep (sc == 0x3A) _ _ (record { none_held = q.none_held })
              (keep (is_release sc) _ _ q
                (keep (not (c == 0)) _ _ (kb_enqueue-Quiet c k (ground arith) q) q))))))
  where
    arrow_kept :
        (b : Bool) (k' : Keyboard)
        → Quiet k'
        → b ≡ is_ext_key sc
        → Quiet (if b then kb_enqueue (key_ext + sc) k' else k')
    arrow_kept true k' q' e = kb_enqueue-Quiet (key_ext + sc) k' (arrow_other sc (sym e)) q'
    arrow_kept false k' q' e = q'

-- No key that the keyboard gives the shell is one of the two that recall a command of the history:
-- a ring without them stays so with every scan code and with every read, and the read gives another
-- key.
pub keyboard-Quiet :
    (sc : ℕ) (k : Keyboard)
    → Quiet k
    → Quiet (keyboard_handler sc k)
      × Quiet (keyboard_getc k).1
      × (is_history_key (keyboard_getc k).0 ≡ false)
unfolding keyboard_getc
keyboard-Quiet sc k q =
    let r = keep_read (k.head == k.tail) in (keyboard_handler-Quiet sc k q, r.0, r.1)
  where
    keep_read :
        (b : Bool)
        → (let r : ℕ × Keyboard =
              if b then (0, k) else (k.kbuf k.tail, record k { tail = (k.tail + 1) % 256 }) in
            Quiet r.1 × (is_history_key r.0 ≡ false))
    keep_read true = (q, refl)
    keep_read false = (record { none_held = q.none_held }, q.none_held k.tail)
