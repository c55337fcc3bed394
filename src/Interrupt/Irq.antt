-- ===== src/Interrupt/Irq.antt =====
-- Interrupts of the hardware, kernel/isr.c: the acknowledgement and the handler.
use nova_kernel.Prelude.{ℕ, ◌≡◌, leb, if◌then◌else◌, Option, some, [], ◌∷◌, ◌++◌}
use nova_kernel.Sched.{Sched, sched_enter_irq}
use nova_kernel.Sched.Tick.{timer_irq}
use nova_kernel.Keyboard.{Keyboard, keyboard_handler}
use nova_kernel.Mouse.{Mouse, mouse_handler}
use nova_kernel.Interrupt.{
  Env, Machine, Trap, Handler, on_timer, on_keyboard, on_mouse, env_services, sched_of,
}

-- what the handler of an interrupt does to each of its devices
abbrev pub sched_after : Option Handler → ℕ → Sched Env → Sched Env
sched_after (some on_timer) r s = timer_irq env_services r s
sched_after o r s = sched_enter_irq r s

abbrev pub keys_after : Option Handler → ℕ → Keyboard → Keyboard
keys_after (some on_keyboard) b k = keyboard_handler b k
keys_after o b k = k

abbrev pub mouse_after : Option Handler → ℕ → Mouse → Mouse
mouse_after (some on_mouse) b m = mouse_handler b m
mouse_after o b m = m

-- An interrupt is acknowledged once, at the slave first if it came from there, and its handler has
-- run on the frame that has been published.
pub record Served {V : Type 0} (o : Option Handler) (irq : ℕ) (t : Trap) (m m' : Machine V)
    : Type 0 where
  pub acknowledged :
      m'.out ≡ (if leb 8 irq then (0x20, 0x20) ∷ (0xA0, 0x20) ∷ [] else (0x20, 0x20) ∷ []) ++ m.out
  pub sched : sched_of m' ≡ sched_after o t.regs.frame (sched_of m)
  pub keys : m'.keys ≡ keys_after o m.port m.keys
  pub mouse : m'.mouse ≡ mouse_after o m.port m.mouse
  pub handlers : m'.irq_handlers ≡ m.irq_handlers

module _ {V : Type 0} where
  -- what is left alone by the acknowledgement
  record Acked (irq : ℕ) (m m' : Machine V) : Type 0 where
    out :
        m'.out
        ≡ (if leb 8 irq then (0x20, 0x20) ∷ (0xA0, 0x20) ∷ [] else (0x20, 0x20) ∷ []) ++ m.out
    sched : sched_of m' ≡ sched_of m
    keys : m'.keys ≡ m.keys
    mouse : m'.mouse ≡ m.mouse
    handlers : m'.irq_handlers ≡ m.irq_handlers
    port : m'.port ≡ m.port
