-- ===== src/Drivers/Vga/Screen.antt =====
-- The screen as a terminal: one row of cells with a single position in it.
use larch.Prelude.{
  ℕ, ◌+◌, ◌-◌, ◌*◌, ◌/◌, ◌%◌, ◌<◌, ◌≡◌, List, ◌==◌, leb, if◌then◌else◌, length, set, newline,
  backspace,
}
use larch.Drivers.Vga.{Vga, cell}
use larch.Drivers.Vga.Scroll.{scrolled}

pub record Terminal : Type 0 where
  pub cells : List ℕ
  pub at : ℕ
  pub colour : ℕ

-- A position below the last line scrolls the terminal by one line.
unfoldable pub settle : Terminal → Terminal
settle t =
    if leb 2000 t.at
    then record t { cells = scrolled t.cells (cell b' ' t.colour); at = t.at - 80 }
    else t

-- What a character does before the terminal settles.
unfoldable pub strike : Terminal → ℕ → Terminal
strike t c =
    if c == newline
    then record t { at = (t.at / 80 + 1) * 80 }
    else if c == b'\r'
    then record t { at = t.at / 80 * 80 }
    else if c == backspace
    then (if t.at % 80 == 0
        then t
        else record t { cells = set t.cells (t.at - 1) (cell b' ' t.colour); at = t.at - 1 })
    else record t { cells = set t.cells t.at (cell c t.colour); at = t.at + 1 }

unfoldable pub type_char : Terminal → ℕ → Terminal
unfolding settle strike
type_char t c = settle (strike t c)

abbrev pub view : Vga → Terminal
view v = record { cells = v.buffer; at = v.cursor_y * 80 + v.cursor_x; colour = v.current_color }

-- The video memory has its size, and the cursor is on the screen.
pub record IsValid (v : Vga) : Type 0 where
  pub cells : length v.buffer ≡ 2000
  pub column : v.cursor_x < 80
  pub row : v.cursor_y < 25
