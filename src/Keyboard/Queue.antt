-- ===== src/Keyboard/Queue.antt =====
-- The ring of kernel/keyboard.c as a bounded queue, oldest key first.
use nova_kernel.Prelude.{
  ℕ, zero, suc, ◌+◌, ◌-◌, ◌%◌, ◌<◌, ◌≡◌, refl, ap, true, false, arith, List, [], ◌∷◌, ◌++◌, ◌==◌,
  if◌then◌else◌, length, update, Bool-cases, inl, inr,
}
use nova_kernel.Keyboard.{Keyboard, kb_enqueue, keyboard_getc}

pub record InRange (k : Keyboard) : Type 0 where
  pub head : k.head < 256
  pub tail : k.tail < 256

-- the `n` keys from the index `t` on, going round at 256
abbrev pub window : (ℕ → ℕ) → ℕ → ℕ → List ℕ
window buf t zero = []
window buf t (suc n) = buf t ∷ window buf ((t + 1) % 256) n

-- how many keys are pending
abbrev pub pending : Keyboard → ℕ
pending k = (k.head + 256 - k.tail) % 256

abbrev pub contents : Keyboard → List ℕ
contents k = window k.kbuf k.tail (pending k)

pub length-window : (buf : ℕ → ℕ) (t n : ℕ) → length (window buf t n) ≡ n
length-window buf t zero = refl
length-window buf t (suc n) = ap suc (length-window buf ((t + 1) % 256) n)

window_suc :
    (buf : ℕ → ℕ) (t n : ℕ) → 0 < n → window buf t n ≡ buf t ∷ window buf ((t + 1) % 256) (n - 1)
window_suc buf t zero h = absurd (omega arith)
window_suc buf t (suc n) h = ap (λ m. buf t ∷ window buf ((t + 1) % 256) m) (omega arith)

-- Writing just past a window extends it by that key.
window-update :
    (buf : ℕ → ℕ) (c t n i : ℕ)
    → t < 256
    → n < 255
    → i ≡ (t + n) % 256
    → window (update buf i c) t (suc n) ≡ window buf t n ++ c ∷ []
window-update buf c t zero i ht hn e =
    let same : i ≡ t = omega arith in let hit : (i == t) ≡ true = ground arith in rw hit refl
window-update buf c t (suc n) i ht hn e =
    let miss : (i == t) ≡ false = ground arith in
    rw miss (
      ap (λ w. buf t ∷ w)
        (window-update buf c ((t + 1) % 256) n i (omega arith) (omega arith) (omega arith)))

-- the bounded queue that the driver stands for: 255 keys at most, and a key too many is dropped
unfoldable pub enqueue : ℕ → List ℕ → List ℕ
enqueue c q = if length q == 255 then q else q ++ c ∷ []

unfoldable pub dequeue : List ℕ → ℕ × List ℕ
dequeue [] = (0, [])
dequeue (c ∷ q) = (c, q)

pub kb_enqueue-InRange : {k : Keyboard} (c : ℕ) → InRange k → InRange (kb_enqueue c k)
unfolding kb_enqueue
kb_enqueue-InRange c v = ground arith

pub keyboard_getc-InRange : {k : Keyboard} → InRange k → InRange (keyboard_getc k).1
unfolding keyboard_getc
keyboard_getc-InRange v = ground arith

-- Over a ring whose indices are in range, putting a key in is putting it into the queue of the
-- pending keys.
pub kb_enqueue_refines :
    (k : Keyboard) (c : ℕ) → InRange k → contents (kb_enqueue c k) ≡ enqueue c (contents k)
unfolding kb_enqueue enqueue
kb_enqueue_refines k c v =
    let n = length-window k.kbuf k.tail (pending k) in
    elim (Bool-cases ((k.head + 1) % 256 == k.tail)) [
      | inl full ↦ let all : (pending k == 255) ≡ true = ground arith in rw (full, n, all)
      | inr room ↦
          let some_left : (pending k == 255) ≡ false = ground arith in
          let more : ((k.head + 1) % 256 + 256 - k.tail) % 256 ≡ suc (pending k) = ground arith in
          rw (room, n, some_left, more)
            (window-update k.kbuf c k.tail (pending k) k.head v.tail (ground arith) (omega arith))
    ]

-- Over such a ring, taking a key out is taking the oldest one of the queue, or 0 if it is empty.
pub keyboard_getc_refines :
    (k : Keyboard)
    → InRange k
    → let (c, k') = keyboard_getc k in (c, contents k') ≡ dequeue (contents k)
unfolding keyboard_getc dequeue
keyboard_getc_refines k v = elim (Bool-cases (k.head == k.tail)) [
  | inl none ↦ let zero_left : pending k ≡ 0 = ground arith in rw (none, zero_left)
  | inr more ↦
      let pos : 0 < pending k = ground arith in
      let left : (k.head + 256 - (k.tail + 1) % 256) % 256 ≡ pending k - 1 = ground arith in
      rw (more, left, window_suc k.kbuf k.tail (pending k) pos)
]
