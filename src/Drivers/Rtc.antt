-- ===== src/Drivers/Rtc.antt =====
-- kernel/drivers/rtc.c. The clock chip is the function from a register to the byte that it returns.
pub mod Clock
mod Tests
use larch.Prelude.{
  ℕ, ◌+◌, ◌*◌, ◌/◌, ◌%◌, ◌^◌, bit_and, Bool, List, [], ◌∷◌, ◌++◌, ◌==◌, if◌then◌else◌, newline,
}
use larch.Console.{Event, writestring}

-- Select a register by port 0x70 and read port 0x71.
abbrev pub rtc_read : (ℕ → ℕ) → ℕ → ℕ
rtc_read registers reg = registers reg

pub rtc_bcd_to_bin : ℕ → ℕ
rtc_bcd_to_bin bcd = bit_and bcd 0x0F + bcd / 2 ^ 4 * 10

pub record Time : Type 0 where
  pub hour : ℕ
  pub minute : ℕ
  pub second : ℕ

pub rtc_get_time : (ℕ → ℕ) → Time
rtc_get_time registers =
    let is_bcd = bit_and (rtc_read registers 0x0B) 0x04 == 0 in
    let second = rtc_read registers 0x00 in
    let minute = rtc_read registers 0x02 in
    let hour = rtc_read registers 0x04 in
    if is_bcd
    then record {
      hour = rtc_bcd_to_bin hour;
      minute = rtc_bcd_to_bin minute;
      second = rtc_bcd_to_bin second;
    }
    else record { hour = hour; minute = minute; second = second }

-- `buf[0] = '0' + (n / 10); buf[1] = '0' + (n % 10); buf[2] = 0;` and the text in it: neither byte is
-- a NUL, as `n` is at most 165.
pub two_digits : ℕ → List ℕ
two_digits n = (b'0' + n / 10) ∷ (b'0' + n % 10) ∷ []

pub cmd_date : (ℕ → ℕ) → List Event
unfolding two_digits
cmd_date registers =
    let t = rtc_get_time registers in
    writestring (newline ∷ [])
    ++ (writestring (two_digits t.hour)
        ++ (writestring (b':' ∷ [])
            ++ (writestring (two_digits t.minute)
                ++ (writestring (b':' ∷ [])
                    ++ (writestring (two_digits t.second) ++ writestring (newline ∷ []))))))
