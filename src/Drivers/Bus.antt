-- ===== src/Drivers/Bus.antt =====
-- The ports of a device as a driver sees them: what each read returns is chosen by the device, and the
-- writes are recorded.
use larch.Prelude.{ℕ, ◌+◌, List, [], ◌∷◌, ◌++◌}

-- `answers port k` is what the k-th read of all returns if it is a read of that port.
pub record Bus : Type 0 where
  pub answers : ℕ → ℕ → ℕ
  pub count : ℕ
  pub writes : List (ℕ × ℕ)

abbrev pub inb : ℕ → Bus → ℕ × Bus
inb port bus = (bus.answers port bus.count, record bus { count = bus.count + 1 })

abbrev pub outb : (port value : ℕ) → Bus → Bus
outb port value bus = record bus { writes = bus.writes ++ (port, value) ∷ [] }
