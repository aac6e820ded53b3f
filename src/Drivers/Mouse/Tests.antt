-- ===== src/Drivers/Mouse/Tests.antt =====
-- A packet that moves the mouse to the right and up.
use larch.Prelude.{ℕ, ◌<◌, ◌≡◌, refl, [], ◌∷◌, arith, ◌==◌, if◌then◌else◌}
use larch.Prelude.Int.{pos}
use larch.Drivers.Bus.{Bus}
use larch.Drivers.Mouse.{Mouse, initial, mouse_handler, mouse_read, mouse_wait, wait_from}
use larch.Drivers.Mouse.Packets.{
  IsValid, interrupt, Reachable, start, next, Reachable-IsValid, Delivers, moved,
  mouse_handler-packet,
}

-- A mouse that is ready and whose next byte is `byte`.
abbrev ready : ℕ → Bus
ready byte = record {
  answers = λ port k. if port == 0x60 then byte else 0x21;
  count = 0;
  writes = [];
}

ready-Delivers : (byte : ℕ) → byte < 256 → Delivers (ready byte) byte
unfolding mouse_read mouse_wait wait_from
ready-Delivers byte h = record { small = h; from_mouse = omega arith; value = refl }

abbrev after_one : Mouse
after_one = (mouse_handler initial (ready 0x09)).0

after_one-Reachable : Reachable after_one
after_one-Reachable = next start (interrupt (ready 0x09) refl)

Reachable-IsValid_example : IsValid after_one
Reachable-IsValid_example = Reachable-IsValid after_one-Reachable

abbrev middle : Mouse
middle = record {
  mouse_x = pos 1000;
  mouse_y = pos 10;
  mouse_buttons = 0;
  mouse_cycle = 0;
  mouse_packet = 0 ∷ 0 ∷ 0 ∷ [];
}

middle-IsValid : IsValid middle
middle-IsValid = ground arith

mouse_handler-packet_example :
    (mouse_handler (mouse_handler (mouse_handler middle (ready 0x09)).0 (ready 100)).0 (ready 5)).0
    ≡ moved middle 0x09 100 5
mouse_handler-packet_example =
    mouse_handler-packet middle (ready 0x09) (ready 100) (ready 5) 0x09 100 5 middle-IsValid refl
      (omega arith) (ready-Delivers 0x09 (omega arith)) (ready-Delivers 100 (omega arith))
      (ready-Delivers 5 (omega arith))
