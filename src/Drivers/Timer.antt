-- ===== src/Drivers/Timer.antt =====
-- kernel/drivers/pit.c: the timer.
pub mod Blinking
pub mod Interrupts
mod Tests
use larch.Prelude.{ℕ, ◌+◌, ◌/◌, ◌%◌, ◌^◌, bit_and, Bool, true}
use larch.Drivers.Bus.{Bus, outb}
use larch.Sched.{Sched, schedule}

abbrev pub pit_frequency : ℕ
pit_frequency = 1193182

abbrev pub target_hz : ℕ
target_hz = 100

-- The bus, and whether interrupts are enabled: they are off from the `cli` on, and on after the `sti`
-- whatever they were before.
pub pit_init : Bus → Bus × Bool
pit_init bus =
    let divisor = pit_frequency / target_hz in
    (
      outb 0x40 (bit_and (divisor / 2 ^ 8) 0xFF)
          (outb 0x40 (bit_and divisor 0xFF) (outb 0x43 0x36 bus)),
      true,
    )

pub record Timer : Type 0 where
  pub tick_count : ℕ
  pub sched : Sched

pub pit_get_tick : Timer → ℕ
pit_get_tick t = t.tick_count

pub pit_handler : Timer → Timer
pit_handler t = record t { tick_count = (t.tick_count + 1) % 2 ^ 32; sched = schedule t.sched }
