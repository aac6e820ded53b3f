-- ===== src/Drivers/Mouse.antt =====
-- kernel/drivers/ps2_mouse.c: the packets of the mouse.
pub mod Packets
mod Tests
use larch.Prelude.{
  ℕ, zero, suc, ◌+◌, ◌-◌, Bool, true, false, Option, none, some, List, [], ◌∷◌, bit_and, ◌==◌, ltb,
  if◌then◌else◌, set, get_or,
}
use larch.Prelude.Int.{ℤ, pos, negsuc, ltb_ℤ, ◌+ℤ◌, ◌-ℤ◌}
use larch.Drivers.Bus.{Bus, inb, outb}

pub record Mouse : Type 0 where
  pub mouse_x : ℤ
  pub mouse_y : ℤ
  pub mouse_buttons : ℕ
  pub mouse_cycle : ℕ
  pub mouse_packet : List ℕ

-- The static variables before the first call.
unfoldable pub initial : Mouse
initial = record {
  mouse_x = pos 0;
  mouse_y = pos 0;
  mouse_buttons = 0;
  mouse_cycle = 0;
  mouse_packet = 0 ∷ 0 ∷ 0 ∷ [];
}

-- `while (timeout--)`: read the status until bit 0 is set (type 0) or bit 1 is clear.
pub wait_from : (timeout type : ℕ) → Bus → Bus
wait_from zero type bus = bus
wait_from (suc timeout) type bus =
    let (status, bus') = inb 0x64 bus in
    let again = wait_from timeout type bus' in
    if (if type == 0 then bit_and status 1 == 1 else bit_and status 2 == 0) then bus' else again

pub mouse_wait : ℕ → Bus → Bus
mouse_wait type bus = wait_from 100000 type bus

pub mouse_write : ℕ → Bus → Bus
mouse_write value bus = outb 0x60 value (mouse_wait 1 (outb 0x64 0xD4 (mouse_wait 1 bus)))

pub mouse_read : Bus → ℕ × Bus
mouse_read bus = inb 0x60 (mouse_wait 0 bus)

pub mouse_init : Bus → Bus
mouse_init bus = (mouse_read (mouse_write 0xF4 bus)).1

-- `(int8_t)` of a byte.
pub int8 : ℕ → ℤ
int8 b = if ltb b 128 then pos b else negsuc (255 - b)

-- `if (v < 0) v = 0;` and `if (v > top) v = top;`
pub clamp : ℤ → ℕ → ℤ
clamp v top = if ltb_ℤ v (pos 0) then pos 0 else (if ltb_ℤ (pos top) v then pos top else v)

-- The part of the handler behind the read of the data.
pub accept : ℕ → Mouse → Mouse
unfolding int8 clamp
accept byte m =
    let packet = set m.mouse_packet m.mouse_cycle byte in
    let last = set m.mouse_packet 2 byte in
    let finished = record m {
      mouse_packet = last;
      mouse_cycle = 0;
      mouse_buttons = bit_and (get_or last 0 0) 0x07;
      mouse_x = clamp (m.mouse_x +ℤ int8 (get_or last 1 0)) 1024;
      mouse_y = clamp (m.mouse_y -ℤ int8 (get_or last 2 0)) 768;
    } in
    if m.mouse_cycle == 0
    then (if bit_and byte 0x08 == 0
        then record m { mouse_packet = packet }
        else record m { mouse_packet = packet; mouse_cycle = 1 })
    else (if m.mouse_cycle == 1
        then record m { mouse_packet = packet; mouse_cycle = 2 }
        else finished)

pub mouse_handler : Mouse → Bus → Mouse × Bus
unfolding accept
mouse_handler m bus =
    let (status, bus1) = inb 0x64 bus in
    let (byte, bus2) = mouse_read bus1 in
    if bit_and status 0x20 == 0 then (m, bus1) else (accept byte m, bus2)
