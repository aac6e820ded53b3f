-- ===== src/Drivers/Timer/Blinking.antt =====
-- kernel/drivers/plit.c: the timer that also makes the cursor blink. What stands before its handler has
-- the text of pit.c.
use larch.Prelude.{ℕ, ◌+◌, ◌%◌, ◌^◌, Bool}
use larch.Drivers.Bus.{Bus}
use larch.Drivers.Cursor.{Cursor, update_cursor_blink}
use larch.Drivers.Timer as Plain
use larch.Sched.{schedule}

abbrev pub pit_frequency : ℕ
pit_frequency = Plain.pit_frequency

abbrev pub target_hz : ℕ
target_hz = Plain.target_hz

-- `tick_count`, and the queue that `schedule` turns.
abbrev pub Timer : Type 0
Timer = Plain.Timer

abbrev pub pit_init : Bus → Bus × Bool
pit_init = Plain.pit_init

abbrev pub pit_get_tick : Timer → ℕ
pit_get_tick = Plain.pit_get_tick

unfoldable pub pit_handler : Timer → Cursor → Bus → Timer × Cursor × Bus
pit_handler t c bus =
    let (c', bus') = update_cursor_blink c bus in
    (record t { tick_count = (t.tick_count + 1) % 2 ^ 32; sched = schedule t.sched }, c', bus')
