-- ===== src/Drivers/Vga.antt =====
-- kernel/drivers/vga_scroll.c: the text screen. `none` is an access outside of the video memory.
-- The cursor is never negative: the only decrement stands behind `cursor_x > 0`.
pub mod Scroll
pub mod Putchar
pub mod Screen
pub mod Session
pub mod Attribute
pub mod Tests
use larch.Prelude.{
  ℕ, zero, suc, ◌+◌, ◌-◌, ◌*◌, ◌/◌, ◌%◌, ◌^◌, bit_and, bit_or, Option, none, some, List, [], ◌∷◌,
  ◌++◌, ◌==◌, ltb, leb, if◌then◌else◌, ◌>>=◌, get_elem?, set?, newline, backspace,
}
use larch.Console.{Event, put, color, clear}

abbrev pub vga_width : ℕ
vga_width = 80

abbrev pub vga_height : ℕ
vga_height = 25

-- The video memory, the static variables, and the `outb` calls so far: port and value.
pub record Vga : Type 0 where
  pub buffer : List ℕ
  pub cursor_x : ℕ
  pub cursor_y : ℕ
  pub current_color : ℕ
  pub ports : List (ℕ × ℕ)

-- `current_color = (bg << 4) | fg`, stored into a `uint8_t`.
unfoldable pub vga_set_color : Vga → ℕ → ℕ → Vga
vga_set_color v fg bg = record v { current_color = bit_or (bg * 2 ^ 4) fg % 2 ^ 8 }

-- The low half of a signed `char` that is promoted to `int`.
pub promoted : ℕ → ℕ
promoted c = if ltb c 128 then c else c + 0xFF00

-- `c | (current_color << 8)`, stored into a `uint16_t`.
pub cell : ℕ → ℕ → ℕ
cell c colour = bit_or (colour * 2 ^ 8) (promoted c) % 2 ^ 16

-- `vga_buffer[(y - 1) * VGA_WIDTH + x] = vga_buffer[y * VGA_WIDTH + x]` for the `left` columns from `x`.
pub scroll_row : ℕ → ℕ → ℕ → List ℕ → Option (List ℕ)
scroll_row zero y x buf = some buf
scroll_row (suc left) y x buf = get_elem? buf (y * vga_width + x) >>= λ c.
    set? buf ((y - 1) * vga_width + x) c >>= λ buf'. scroll_row left y (suc x) buf'

-- The outer loop, for the `left` rows from `y`.
pub scroll_rows : ℕ → ℕ → List ℕ → Option (List ℕ)
scroll_rows zero y buf = some buf
scroll_rows (suc left) y buf =
    scroll_row vga_width y 0 buf >>= λ buf'. scroll_rows left (suc y) buf'

-- `vga_buffer[base + x] = value` for the `left` indices from `x`.
pub fill_cells : ℕ → ℕ → ℕ → ℕ → List ℕ → Option (List ℕ)
fill_cells zero base x value buf = some buf
fill_cells (suc left) base x value buf =
    set? buf (base + x) value >>= λ buf'. fill_cells left base (suc x) value buf'

pub vga_scroll : Vga → Option Vga
vga_scroll v = scroll_rows (vga_height - 1) 1 v.buffer >>= λ moved.
    fill_cells vga_width ((vga_height - 1) * vga_width) 0 (cell b' ' v.current_color) moved
    >>= λ buf. some (record v { buffer = buf; cursor_y = vga_height - 1 })

-- `vga_buffer[cursor_y * VGA_WIDTH + cursor_x] = value`
pub write_cell : Vga → ℕ → ℕ → Option Vga
write_cell v x value = set? v.buffer (v.cursor_y * vga_width + x) value >>= λ buf.
    some (record v { buffer = buf; cursor_x = x })

-- The chain of tests on the character.
pub put_char : Vga → ℕ → Option Vga
put_char v c =
    if c == newline
    then some (record v { cursor_x = 0; cursor_y = v.cursor_y + 1 })
    else if c == b'\r'
    then some (record v { cursor_x = 0 })
    else if c == backspace
    then (if ltb 0 v.cursor_x
        then write_cell v (v.cursor_x - 1) (cell b' ' v.current_color)
        else some v)
    else (write_cell v v.cursor_x (cell c v.current_color) >>= λ v'.
        some (record v' { cursor_x = v'.cursor_x + 1 }))

pub wrap_column : Vga → Vga
wrap_column v =
    if leb vga_width v.cursor_x then record v { cursor_x = 0; cursor_y = v.cursor_y + 1 } else v

pub scroll_if_below : Vga → Option Vga
scroll_if_below v = if leb vga_height v.cursor_y then vga_scroll v else some v

-- The position is a `uint16_t`; `outb` sends the low 8 bits of its operand.
pub move_cursor : Vga → Vga
move_cursor v =
    let pos = (v.cursor_y * vga_width + v.cursor_x) % 2 ^ 16 in
    record v {
      ports =
          v.ports
          ++ ((0x3D4, 0x0F)
              ∷ (0x3D5, bit_and pos 0xFF)
              ∷ (0x3D4, 0x0E)
              ∷ (0x3D5, pos / 2 ^ 8 % 2 ^ 8)
              ∷ []);
    }

pub vga_putchar : Vga → ℕ → Option Vga
vga_putchar v c =
    put_char v c >>= λ v'. scroll_if_below (wrap_column v') >>= λ w. some (move_cursor w)

pub vga_writestring : Vga → List ℕ → Option Vga
vga_writestring v [] = some v
vga_writestring v (c ∷ s) = vga_putchar v c >>= λ v'. vga_writestring v' s

pub vga_clear : Vga → Option Vga
vga_clear v =
    fill_cells (vga_width * vga_height) 0 0 (cell b' ' v.current_color) v.buffer >>= λ buf.
    some (record v { buffer = buf; cursor_x = 0; cursor_y = 0 })

unfoldable pub vga_init : Vga → Option Vga
vga_init v = vga_clear v >>= λ v'. some (vga_set_color v' 0x0F 0x00)

-- What the calls of a client do to the screen.
pub run : Vga → List Event → Option Vga
run v [] = some v
run v (put c ∷ es) = vga_putchar v c >>= λ v'. run v' es
run v (color fg bg ∷ es) = run (vga_set_color v fg bg) es
run v (clear ∷ es) = vga_clear v >>= λ v'. run v' es
