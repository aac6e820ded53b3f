-- ===== src/Libc/Math.antt =====
-- lib/math/math.c. An `int` is an integer; `none` is undefined behaviour: a result that is no `int`,
-- or a division by zero.
pub mod Power
pub mod Rounding
pub mod PowerOfTwo
use larch.Prelude.{
  ℕ, zero, suc, ◌+◌, ◌-◌, ◌*◌, ◌/◌, ◌%◌, ◌^◌, bit_and, Bool, true, false, not, ◌&&◌, Option, none,
  some, ◌==◌, ltb, leb, if◌then◌else◌, ◌>>=◌,
}
use larch.Prelude.Int.{ℤ, pos, negsuc, ◌+ℤ◌, ◌-ℤ◌, ltb_ℤ}

-- A result of type `int`.
unfoldable pub to_int : ℤ → Option ℤ
to_int (pos n) = if ltb n (2 ^ 31) then some (pos n) else none
to_int (negsuc n) = if ltb n (2 ^ 31) then some (negsuc n) else none

pub abs : ℤ → Option ℤ
unfolding to_int
abs x = if ltb_ℤ x (pos 0) then to_int (pos 0 -ℤ x) else some x

-- `long` has 32 bits on i686.
pub labs : ℤ → Option ℤ
unfolding to_int
labs x = if ltb_ℤ x (pos 0) then to_int (pos 0 -ℤ x) else some x

pub min_int : ℤ → ℤ → ℤ
min_int a b = if ltb_ℤ a b then a else b

pub max_int : ℤ → ℤ → ℤ
max_int a b = if ltb_ℤ b a then a else b

-- The loop of `pow_u32`; `none` is out of fuel.
pub pow_from : ℕ → ℕ → ℕ → ℕ → Option ℕ
pow_from zero base exp result = none
pow_from (suc fuel) base exp result =
    let odd = bit_and exp 1 in
    let rest =
      pow_from fuel (base * base % 2 ^ 32) (exp / 2)
        (if odd == 0 then result else result * base % 2 ^ 32) in
    if exp == 0 then some result else rest

pub pow_u32 : ℕ → ℕ → Option ℕ
pow_u32 base exp = pow_from 33 base exp 1

-- Division of an `int` rounds towards zero.
pub div_int : ℤ → ℤ → Option ℤ
div_int a (pos zero) = none
div_int (pos n) (pos (suc d)) = some (pos (n / suc d))
div_int (pos n) (negsuc d) = some (pos 0 -ℤ pos (n / suc d))
div_int (negsuc n) (pos (suc d)) = some (pos 0 -ℤ pos (suc n / suc d))
div_int (negsuc n) (negsuc d) = to_int (pos (suc n / suc d))

pub div_round_up : ℤ → ℤ → Option ℤ
unfolding to_int div_int
div_round_up a b = to_int (a +ℤ b) >>= λ s. to_int (s -ℤ pos 1) >>= λ t. div_int t b

pub is_power_of_two : ℕ → Bool
is_power_of_two x = not (x == 0) && (bit_and x ((x + 2 ^ 32 - 1) % 2 ^ 32) == 0)
