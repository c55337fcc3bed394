-- ===== src/Mouse.antt =====
-- The PS/2 mouse driver, kernel/mouse.c: the packets of three bytes and the edges of the left
-- button. The byte that `inb(0x60)` reads is the argument of the handler. `mouse_init` only talks to
-- the hardware, besides setting `m_enabled`.
pub mod Packet
use nova_kernel.Prelude.{
  ℕ, ◌+◌, ◌-◌, ◌%◌, Bool, true, false, not, ◌&&◌, ltb, ◌==◌, if◌then◌else◌, List, [], ◌∷◌,
}

pub record Mouse : Type 0 where
  pub x : ℕ
  pub y : ℕ
  pub buttons : ℕ
  pub prev : ℕ
  pub pkt0 : ℕ
  pub pkt1 : ℕ
  pub pkt2 : ℕ
  pub cycle : ℕ
  pub enabled : Bool

-- `at + (i8)b`, and `at - (i8)b`, kept inside 0..last. The subtraction stops at 0, where the source
-- sets a negative result to 0.
unfoldable pub add_i8 : ℕ → ℕ → ℕ → ℕ
add_i8 last at b =
    let v = if ltb b 128 then at + b else at + b - 256 in if ltb last v then last else v

unfoldable pub sub_i8 : ℕ → ℕ → ℕ → ℕ
sub_i8 last at b =
    let v = if ltb b 128 then at - b else at + (256 - b) in if ltb last v then last else v

unfoldable pub mouse_process : Mouse → Mouse
mouse_process m = record m {
  x = add_i8 319 m.x m.pkt1;
  y = sub_i8 199 m.y m.pkt2;
  buttons = m.pkt0 % 8;
}

unfoldable pub mouse_handler : ℕ → Mouse → Mouse
mouse_handler d m =
    if not m.enabled
    then m
    else if m.cycle == 0
    then record m { pkt0 = d; cycle = 1 }
    else if m.cycle == 1
    then record m { pkt1 = d; cycle = 2 }
    else if m.cycle == 2
    then mouse_process (record m { pkt2 = d; cycle = 0 })
    else record m { cycle = 0 }

-- m_buttons & 1
abbrev pub left : ℕ → Bool
left b = b % 2 == 1

unfoldable pub mouse_left_down : Mouse → Bool
mouse_left_down m = left m.buttons

unfoldable pub mouse_left_clicked : Mouse → Bool × Mouse
mouse_left_clicked m = (left m.buttons && not (left m.prev), record m { prev = m.buttons })

unfoldable pub mouse_left_released : Mouse → Bool × Mouse
mouse_left_released m = (not (left m.buttons) && left m.prev, record m { prev = m.buttons })

-- the interrupts of a list of bytes
unfoldable pub receive : List ℕ → Mouse → Mouse
receive [] m = m
receive (d ∷ ds) m = receive ds (mouse_handler d m)
