-- ===== src/Keyboard/Tests.antt =====
-- The theorems on kernel/keyboard.c at a concrete history.
use nova_kernel.Prelude.{◌≡◌, refl, false, arith, List, [], ◌∷◌}
use nova_kernel.Keyboard.{
  Keyboard, kb_enqueue, keyboard_handler, keyboard_getc, translate, is_release, is_ext_key,
}
use nova_kernel.Keyboard.Queue.{InRange}
use nova_kernel.Keyboard.Decode.{mods, Event, scan, read, run, run_queue, run_refines}

abbrev idle : Keyboard
idle = record {
  kbuf = λ _. 0;
  head = 255;
  tail = 255;
  shift = false;
  caps = false;
  extended = false;
}

-- Shift down, h, Shift up, i, arrow up, and four reads
abbrev history : List Event
history =
    scan 0x2A
    ∷ scan 0x23
    ∷ scan 0xAA
    ∷ scan 0x17
    ∷ read
    ∷ scan 0xE0
    ∷ scan 0x48
    ∷ read
    ∷ read
    ∷ read
    ∷ []

idle-InRange : InRange idle
idle-InRange = record { head = omega arith; tail = omega arith }

run-history : run idle history ≡ b'H' ∷ b'i' ∷ 0x148 ∷ 0 ∷ []
unfolding run keyboard_handler keyboard_getc kb_enqueue translate is_release is_ext_key
run-history = refl

run_refines_example : run idle history ≡ run_queue (mods idle) [] history
run_refines_example = run_refines history idle idle-InRange (omega arith)
