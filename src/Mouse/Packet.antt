-- ===== src/Mouse/Packet.antt =====
-- Packets of the mouse, kernel/mouse.c.
use nova_kernel.Prelude.{
  ℕ, ◌+◌, ◌-◌, ◌<◌, ◌≡◌, refl, true, false, ltb, if◌then◌else◌, List, [], ◌∷◌, arith, min,
}
use nova_kernel.Mouse.{
  Mouse, add_i8, sub_i8, mouse_process, mouse_handler, left, mouse_left_down, mouse_left_clicked,
  mouse_left_released, receive,
}

-- The cursor is on the screen, and the packet is one of its three states.
pub record OnScreen (m : Mouse) : Type 0 where
  pub x : m.x < 320
  pub y : m.y < 200
  pub cycle : m.cycle < 3

mouse_handler-OnScreen : (d : ℕ) (m : Mouse) → OnScreen m → OnScreen (mouse_handler d m)
unfolding mouse_handler mouse_process add_i8 sub_i8
mouse_handler-OnScreen d m s =
    let hx = s.x in
    let hy = s.y in
    let hc = s.cycle in record { x = ground arith; y = ground arith; cycle = ground arith }

-- Whatever bytes arrive, the cursor stays on the screen and the packet in one of its three states.
pub receive-OnScreen : (ds : List ℕ) (m : Mouse) → OnScreen m → OnScreen (receive ds m)
unfolding receive
receive-OnScreen [] m s = s
receive-OnScreen (d ∷ ds) m s =
    receive-OnScreen ds (mouse_handler d m) (mouse_handler-OnScreen d m s)

-- What a packet does to the cursor, by the distances to the right or left and up or down.
pub record Moved (flags dx dy : ℕ) (m m' : Mouse) : Type 0 where
  pub x : m'.x ≡ (if ltb dx 128 then min 319 (m.x + dx) else m.x - (256 - dx))
  pub y : m'.y ≡ (if ltb dy 128 then m.y - dy else min 199 (m.y + (256 - dy)))
  pub pressed : mouse_left_down m' ≡ left flags
  pub ready : m'.cycle ≡ 0

-- On an enabled mouse at the start of a packet, with the cursor on the screen, three bytes move the
-- cursor by the signed distances of the second and the third, upwards for a positive third, stop it
-- at the edges, set the left button from the first, and are ready for the next packet.
pub receive-Moved :
    (flags dx dy : ℕ) (m : Mouse)
    → dx < 256
    → dy < 256
    → OnScreen m
    → m.enabled ≡ true
    → m.cycle ≡ 0
    → Moved flags dx dy m (receive (flags ∷ dx ∷ dy ∷ []) m)
unfolding receive mouse_handler mouse_process add_i8 sub_i8 mouse_left_down
receive-Moved flags dx dy m bx bY s on start =
    let hx = s.x in
    let hy = s.y in
    rw (on, start)
      (record { x = ground arith; y = ground arith; pressed = ground arith; ready = refl })

-- Asking for a click consumes a release: once `mouse_left_clicked` has been called, as every frame of
-- kernel/gui.c does first, `mouse_left_released` answers no, whatever the buttons were.
pub released-clicked : (m : Mouse) → (mouse_left_released (mouse_left_clicked m).1).0 ≡ false
unfolding mouse_left_clicked mouse_left_released
released-clicked m = ground arith
