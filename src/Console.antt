-- ===== src/Console.antt =====
-- The display as its clients see it: the calls of `vga_putchar`, `vga_set_color` and `vga_clear`
-- that a piece of C code makes, in order.
use larch.Prelude.{ℕ, List, map}

pub data Event : Type 0 where
  put : ℕ → Event
  color : ℕ → ℕ → Event
  clear : Event

-- `vga_writestring` of a text: one `vga_putchar` for each byte.
abbrev pub writestring : List ℕ → List Event
writestring s = map put s
