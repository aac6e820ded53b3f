-- ===== src/Drivers/Serial.antt =====
-- kernel/drivers/serial.c: the serial port. A loop that polls is given fuel; `none` is a loop that has not
-- ended with it.
pub mod Sent
mod Tests
use larch.Prelude.{
  ℕ, zero, suc, ◌+◌, Option, none, some, List, [], ◌∷◌, bit_and, ◌==◌, if◌then◌else◌, ◌>>=◌,
}
use larch.Drivers.Bus.{Bus, inb, outb}

abbrev pub com1 : ℕ
com1 = 0x3F8

pub serial_received : Bus → ℕ × Bus
serial_received bus = let (status, bus') = inb (com1 + 5) bus in (bit_and status 1, bus')

pub is_transmit_empty : Bus → ℕ × Bus
is_transmit_empty bus = let (status, bus') = inb (com1 + 5) bus in (bit_and status 0x20, bus')

pub read_serial : (fuel : ℕ) → Bus → Option (ℕ × Bus)
read_serial zero bus = none
read_serial (suc fuel) bus =
    let (received, bus') = serial_received bus in
    let again = read_serial fuel bus' in if received == 0 then again else some (inb com1 bus')

pub write_serial : (fuel a : ℕ) → Bus → Option Bus
write_serial zero a bus = none
write_serial (suc fuel) a bus =
    let (empty, bus') = is_transmit_empty bus in
    let again = write_serial fuel a bus' in if empty == 0 then again else some (outb com1 a bus')

pub serial_init : Bus → Bus
serial_init bus = outb (com1 + 4) 0x0B (
    outb (com1 + 2) 0xC7 (
      outb (com1 + 3) 0x03 (
        outb (com1 + 1) 0x00
          (outb (com1 + 0) 0x03 (outb (com1 + 3) 0x80 (outb (com1 + 1) 0x00 bus))))))

pub serial_write_string : (fuel : ℕ) → List ℕ → Bus → Option Bus
serial_write_string fuel [] bus = some bus
serial_write_string fuel (c ∷ str) bus =
    write_serial fuel c bus >>= (λ bus'. serial_write_string fuel str bus')
