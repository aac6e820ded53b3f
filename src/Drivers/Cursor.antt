-- ===== src/Drivers/Cursor.antt =====
-- kernel/drivers/vga_cursor.c: the blink of the cursor.
pub mod Blink
use larch.Prelude.{
  ℕ, ◌+◌, ◌*◌, ◌/◌, ◌%◌, ◌^◌, Bool, true, false, not, List, [], bit_and, bit_or, leb, if◌then◌else◌,
}
use larch.Drivers.Bus.{Bus, inb, outb}

pub record Cursor : Type 0 where
  pub cursor_visible : Bool
  pub blink_counter : ℕ
  pub blink_rate : ℕ

-- The position that the hardware reports, low byte first.
pub get_cursor_position : Bus → ℕ × Bus
get_cursor_position bus =
    let (low, bus1) = inb 0x3D5 (outb 0x3D4 0x0F bus) in
    let (high, bus2) = inb 0x3D5 (outb 0x3D4 0x0E bus1) in (bit_or (high * 2 ^ 8) low, bus2)

pub set_cursor_position : ℕ → Bus → Bus
set_cursor_position pos bus =
    outb 0x3D5 (bit_and (pos / 2 ^ 8) 0xFF)
      (outb 0x3D4 0x0E (outb 0x3D5 (bit_and pos 0xFF) (outb 0x3D4 0x0F bus)))

pub hide_cursor : Bus → Bus
hide_cursor bus = outb 0x3D5 0x20 (outb 0x3D4 0x0A bus)

pub show_cursor : Bus → Bus
show_cursor bus = outb 0x3D5 0x0E (outb 0x3D4 0x0A bus)

pub update_cursor_blink : Cursor → Bus → Cursor × Bus
unfolding get_cursor_position set_cursor_position hide_cursor show_cursor
update_cursor_blink c bus =
    let counter = c.blink_counter + 1 in
    let flipped = record c { blink_counter = 0; cursor_visible = not c.cursor_visible } in
    let (position, bus') = get_cursor_position (show_cursor bus) in
    if leb c.blink_rate counter
    then (
      flipped,
      (if not c.cursor_visible then set_cursor_position position bus' else hide_cursor bus),
    )
    else (record c { blink_counter = counter }, bus)

unfoldable pub init_cursor_blink : Cursor
init_cursor_blink = record { cursor_visible = true; blink_counter = 0; blink_rate = 10 }
