-- ===== src/Drivers/Rtc/Tests.antt =====
-- The theorems of the clock at half past nine in the evening.
use larch.Prelude.{ℕ, ◌≡◌, refl, map, arith, ◌==◌, if◌then◌else◌, codes}
use larch.Console.{put}
use larch.Drivers.Rtc.{Time, cmd_date}
use larch.Drivers.Rtc.Clock.{Holds, cmd_date_lem}

-- 21:30:05 in BCD, with bit 2 of register 0x0B clear.
abbrev evening : ℕ → ℕ
evening reg =
    if reg == 0 then 0x05 else (if reg == 2 then 0x30 else (if reg == 4 then 0x21 else 0x02))

abbrev half_past_nine : Time
half_past_nine = record { hour = 21; minute = 30; second = 5 }

evening-Holds : Holds evening half_past_nine
evening-Holds = record {
  hour_two = omega arith;
  minute_two = omega arith;
  second_two = omega arith;
  second_at = refl;
  minute_at = refl;
  hour_at = refl;
}

cmd_date_lem_example : cmd_date evening ≡ map put (codes "\n21:30:05\n")
cmd_date_lem_example = cmd_date_lem evening half_past_nine evening-Holds
