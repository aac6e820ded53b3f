-- ===== src/Drivers/Rtc/Clock.antt =====
-- The time that the chip holds is the time that `date` prints.
use larch.Prelude.{
  ℕ, ◌+◌, ◌*◌, ◌/◌, ◌%◌, ◌^◌, ◌<◌, ◌≡◌, refl, [], ◌∷◌, arith, ◌==◌, bit_and, newline, if◌then◌else◌,
  map,
}
use larch.Prelude.Bits.{bit_and_mask, bit_and_shift}
use larch.Console.{put}
use larch.Printf.Decimal.{read_decimal}
use larch.Drivers.Rtc.{Time, rtc_bcd_to_bin, rtc_get_time, two_digits, cmd_date}

-- Two decimal digits in one byte.
abbrev pub to_bcd : ℕ → ℕ
to_bcd n = n / 10 * 16 + n % 10

-- Decoding undoes encoding.
pub rtc_bcd_to_bin-to_bcd : (n : ℕ) → n < 100 → rtc_bcd_to_bin (to_bcd n) ≡ n
unfolding rtc_bcd_to_bin
rtc_bcd_to_bin-to_bcd n h = omega (arith, bit_and_mask 4 (to_bcd n))

-- The chip's registers hold a time, in the format that bit 2 of register 0x0B selects.
pub record Holds (registers : ℕ → ℕ) (t : Time) : Type 0 where
  pub hour_two : t.hour < 100
  pub minute_two : t.minute < 100
  pub second_two : t.second < 100
  pub second_at :
      registers 0x00 ≡ (if registers 0x0B / 4 % 2 == 0 then to_bcd t.second else t.second)
  pub minute_at :
      registers 0x02 ≡ (if registers 0x0B / 4 % 2 == 0 then to_bcd t.minute else t.minute)
  pub hour_at : registers 0x04 ≡ (if registers 0x0B / 4 % 2 == 0 then to_bcd t.hour else t.hour)

mode_bit : (x : ℕ) → bit_and x 0x04 ≡ x / 4 % 2 * 4
mode_bit x = omega (arith, bit_and_shift 2 x 1, bit_and_mask 1 (x / 2 ^ 2))

-- When the chip holds a time of two-digit numbers, in either of its two formats, `rtc_get_time`
-- returns that time.
pub rtc_get_time_lem :
    (registers : ℕ → ℕ) (t : Time) → Holds registers t → rtc_get_time registers ≡ t
unfolding rtc_get_time
rtc_get_time_lem registers t h = ground (
  arith,
  mode_bit (registers 0x0B),
  rtc_bcd_to_bin-to_bcd t.hour h.hour_two,
  rtc_bcd_to_bin-to_bcd t.minute h.minute_two,
  rtc_bcd_to_bin-to_bcd t.second h.second_two,
)

-- Two digits that read back as the number.
pub two_digits_lem :
    (n : ℕ)
    → n < 100
    → (a : ℕ) × (b : ℕ) × (two_digits n ≡ a ∷ b ∷ []) × (read_decimal 0 (a ∷ b ∷ []) ≡ n)
unfolding two_digits
two_digits_lem n h = (b'0' + n / 10, b'0' + n % 10, refl, omega arith)

-- When the chip holds a time of two-digit numbers, in either of its two formats, `date` prints
-- that time as HH:MM:SS on a line of its own.
pub cmd_date_lem :
    (registers : ℕ → ℕ) (t : Time)
    → Holds registers t
    → cmd_date registers
      ≡ map put (
          newline
          ∷ (b'0' + t.hour / 10)
          ∷ (b'0' + t.hour % 10)
          ∷ b':'
          ∷ (b'0' + t.minute / 10)
          ∷ (b'0' + t.minute % 10)
          ∷ b':'
          ∷ (b'0' + t.second / 10)
          ∷ (b'0' + t.second % 10)
          ∷ newline
          ∷ [])
cmd_date_lem registers t h = unfold cmd_date in rw (rtc_get_time_lem registers t h) refl
