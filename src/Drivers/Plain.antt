-- ===== src/Drivers/Plain.antt =====
-- kernel/drivers/vga.c: the screen without scrolling. `none` is a store outside of the video memory. The
-- cursor is never negative.
pub mod Wrap
mod Tests
use larch.Prelude.{
  ℕ, ◌+◌, ◌*◌, ◌%◌, ◌^◌, bit_or, Option, none, some, List, [], ◌∷◌, ◌==◌, leb, if◌then◌else◌, ◌>>=◌,
  set?, newline,
}
use larch.Drivers.Vga.{vga_width, vga_height, promoted}

-- The video memory and the static variables.
pub record Plain : Type 0 where
  pub buffer : List ℕ
  pub cursor_x : ℕ
  pub cursor_y : ℕ

-- `(bg << 4) | fg`, returned as a `uint8_t`.
pub vga_color : (fg bg : ℕ) → ℕ
vga_color fg bg = bit_or (bg * 2 ^ 4) fg % 2 ^ 8

-- The character: a line break, or a cell.
pub put_cell : Plain → (c color : ℕ) → Option Plain
put_cell v c color =
    if c == newline
    then some (record v { cursor_x = 0; cursor_y = v.cursor_y + 1 })
    else (set? v.buffer (v.cursor_y * vga_width + v.cursor_x) (bit_or (promoted c) (color * 2 ^ 8))
        >>= (λ buf. some (record v { buffer = buf; cursor_x = v.cursor_x + 1 })))

pub wrap_column : Plain → Plain
wrap_column v =
    if leb vga_width v.cursor_x then record v { cursor_x = 0; cursor_y = v.cursor_y + 1 } else v

-- Below the last row the cursor goes to the top.
pub wrap_row : Plain → Plain
wrap_row v = if leb vga_height v.cursor_y then record v { cursor_y = 0 } else v

pub vga_putchar : Plain → (c color : ℕ) → Option Plain
vga_putchar v c color = put_cell v c color >>= (λ w. some (wrap_row (wrap_column w)))

pub vga_write : Plain → List ℕ → (color : ℕ) → Option Plain
vga_write v [] color = some v
vga_write v (c ∷ str) color = vga_putchar v c color >>= (λ w. vga_write w str color)
