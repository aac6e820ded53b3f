-- ===== src/Libc/Math/Rounding.antt =====
-- `abs`, `min`, `max` and `div_round_up`.
use larch.Prelude.{
  ℕ, zero, suc, ◌+◌, ◌-◌, ◌*◌, ◌/◌, ◌^◌, ◌≤◌, ◌<◌, ◌≡◌, none, some, arith, leb, if◌then◌else◌,
}
use larch.Prelude.Int.{ℤ, pos, negsuc, ◌+ℤ◌, ◌-ℤ◌, ◌≤ℤ◌, pos_part, neg_part}
use native.Mathlib.Nat.{div-add-mod}
use larch.Libc.Math.{abs, min_int, max_int, div_round_up}

-- Every `int` but the least has an absolute value, the sum of its positive and its negative part.
-- For the least one the negation overflows.
pub abs_lem :
    (x : ℤ)
    → negsuc (2 ^ 31 - 1) ≤ℤ x
    → abs x ≡ (if leb (neg_part x) (2 ^ 31 - 1) then some (pos (pos_part x + neg_part x)) else none)
unfolding abs ◌-ℤ◌
abs_lem x h = ground arith

-- `min` and `max` return the lesser and the greater argument.
pub min_max_int :
    (a b : ℤ)
    → (min_int a b ≤ℤ a)
      × (min_int a b ≤ℤ b)
      × (a ≤ℤ max_int a b)
      × (b ≤ℤ max_int a b)
      × (min_int a b +ℤ max_int a b ≡ a +ℤ b)
unfolding min_int max_int ◌+ℤ◌
min_max_int a b = ground arith

-- For `a` at least 0 and `b` positive, whose sum is an `int`, `div_round_up` is the least `q` with
-- `a ≤ q * b`.
pub div_round_up_lem :
    (a b : ℕ)
    → 0 < b
    → a + b < 2 ^ 31
    → (q : ℕ) × (div_round_up (pos a) (pos b) ≡ some (pos q))
      × (a ≤ q * b)
      × ((r : ℕ) → a ≤ r * b → q ≤ r)
unfolding div_round_up ◌+ℤ◌ ◌-ℤ◌
div_round_up_lem a zero h k = absurd (omega arith)
div_round_up_lem a (suc b) h k = (
  (a + suc b - 1) / suc b,
  ground arith,
  omega (arith, div-add-mod (a + suc b - 1) (suc b)),
  λ r e. grind (arith, div-add-mod (a + suc b - 1) (suc b)),
)
