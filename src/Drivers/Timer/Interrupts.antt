-- ===== src/Drivers/Timer/Interrupts.antt =====
-- Any number of interrupts of the timer: the clock, the cursor and the scheduler together.
use larch.Prelude.{ℕ, zero, suc, ◌+◌, ◌/◌, ◌%◌, ◌^◌, ◌<◌, ◌≡◌, ◌⊎◌, refl, ap, ◌∙◌, arith, ◌==◌}
use larch.Drivers.Bus.{Bus}
use larch.Drivers.Cursor.{Cursor, init_cursor_blink, update_cursor_blink}
use larch.Drivers.Cursor.Blink.{updates, updates-blink}
use larch.Drivers.Timer as Plain
use larch.Drivers.Timer.Blinking.{Timer, pit_handler, pit_get_tick}
use larch.Sched.{Sched, schedule, create_process, process_address}
use larch.Sched.Cycle.{schedules, created_twice, schedule-only_last}

-- `n` interrupts, one after the other.
unfoldable pub interrupts : ℕ → Timer → Cursor → Bus → Timer × Cursor × Bus
interrupts zero t c bus = (t, c, bus)
interrupts (suc n) t c bus = let (t', c', bus') = interrupts n t c bus in pit_handler t' c' bus'

-- The three parts do not disturb each other.
interrupts-parts :
    (n : ℕ) (t : Timer) (c : Cursor) (bus : Bus)
    → t.tick_count < 2 ^ 32
    → ((interrupts n t c bus).0.tick_count ≡ (t.tick_count + n) % 2 ^ 32)
      × ((interrupts n t c bus).0.sched ≡ schedules n t.sched)
      × ((interrupts n t c bus).1 ≡ (updates n c bus).0)
      × ((interrupts n t c bus).2 ≡ (updates n c bus).1)
unfolding interrupts pit_handler schedules updates
interrupts-parts zero t c bus small = (omega arith, refl, refl, refl)
interrupts-parts (suc n) t c bus small =
    let (ticks, sched, cursor, ports) = interrupts-parts n t c bus small in
    let blink =
      ap (λ c'. update_cursor_blink c' (interrupts n t c bus).2) cursor
      ∙ ap (update_cursor_blink (updates n c bus).0) ports in
    (omega (arith, ticks), ap schedule sched, ap (λ p. p.0) blink, ap (λ p. p.1) blink)

-- After `n` interrupts from the start of the cursor, and with a ready queue of two created processes: the
-- clock has gone on by `n`, modulo 2 ^ 32; the cursor is visible exactly when the number of whole tens
-- is even; and from the first interrupt on the process that runs is the second one, the first never
-- runs.
pub interrupts-Ticked :
    (n : ℕ) (t : Timer) (s : Sched) (bus : Bus)
    → t.tick_count < 2 ^ 32
    → t.sched ≡ created_twice s
    → (s.current ≡ 0) ⊎ (s.current ≡ process_address)
    → let (t', c', bus') = interrupts (suc n) t init_cursor_blink bus in
      (pit_get_tick t' ≡ (t.tick_count + suc n) % 2 ^ 32)
      × (c'.cursor_visible ≡ (suc n / 10 % 2 == 0))
      × ((t'.sched.memory t'.sched.current).pid ≡ (create_process (create_process s).1).0)
unfolding Plain.pit_get_tick
interrupts-Ticked n t s bus small queue chosen =
    let (ticks, sched, cursor, ports) = interrupts-parts (suc n) t init_cursor_blink bus small in
    let after = sched ∙ ap (schedules (suc n)) queue in
    (
      ticks,
      ap (λ (c : Cursor). c.cursor_visible) (cursor ∙ updates-blink (suc n) bus),
      ap (λ (q : Sched). (q.memory q.current).pid) after ∙ schedule-only_last s n chosen,
    )
