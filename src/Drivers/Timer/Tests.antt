-- ===== src/Drivers/Timer/Tests.antt =====
-- A clock just before its end, and two processes.
use larch.Prelude.{◌-◌, ◌+◌, ◌/◌, ◌%◌, ◌^◌, ◌==◌, ◌≡◌, refl, inl, [], arith}
use larch.Drivers.Bus.{Bus}
use larch.Drivers.Cursor.{init_cursor_blink}
use larch.Drivers.Timer.Blinking.{Timer, pit_get_tick}
use larch.Drivers.Timer.Interrupts.{interrupts, interrupts-Ticked}
use larch.Sched.{Sched, create_process}
use larch.Sched.Cycle.{created_twice}

abbrev silent : Bus
silent = record { answers = λ port k. 0; count = 0; writes = [] }

abbrev booted : Sched
booted = record {
  memory = λ a. record { pid = 0; state = 0; stack = 0; next = 0 };
  current = 0;
  ready_queue = 0;
  next_pid = 1;
}

abbrev late : Timer
late = record { tick_count = 2 ^ 32 - 5; sched = created_twice booted }

interrupts-Ticked_example :
    let (t, c, bus) = interrupts 25 late init_cursor_blink silent in
    (pit_get_tick t ≡ (2 ^ 32 - 5 + 25) % 2 ^ 32)
    × (c.cursor_visible ≡ (25 / 10 % 2 == 0))
    × ((t.sched.memory t.sched.current).pid ≡ (create_process (create_process booted).1).0)
interrupts-Ticked_example = interrupts-Ticked 24 late booted silent (omega arith) refl (inl refl)
