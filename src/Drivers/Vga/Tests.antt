-- ===== src/Drivers/Vga/Tests.antt =====
-- The theorems of the screen on a small session.
use larch.Prelude.{refl, List, [], ◌∷◌, replicate, arith}
use larch.Console.{Event, put, color, clear}
use larch.Drivers.Vga.{Vga, run}
use larch.Drivers.Vga.Screen.{IsValid, view}
use larch.Drivers.Vga.Session.{Reaches, play, run-Reaches}

abbrev pub boot_screen : Vga
boot_screen = record {
  buffer = replicate 2000 0x0720;
  cursor_x = 79;
  cursor_y = 24;
  current_color = 0x0F;
  ports = [];
}

pub boot_screen-IsValid : IsValid boot_screen
boot_screen-IsValid = record { cells = refl; column = omega arith; row = omega arith }

abbrev session : List Event
session = put b'A' ∷ color 0x0C 0x00 ∷ put 10 ∷ put 8 ∷ clear ∷ put b'B' ∷ []

run-Reaches_example : Reaches (play (view boot_screen) session) (run boot_screen session)
run-Reaches_example = run-Reaches session boot_screen boot_screen-IsValid
