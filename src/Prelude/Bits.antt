-- ===== src/Prelude/Bits.antt =====
-- `&` with a mask of ones, `|` of disjoint fields and a single bit, as arithmetic.
use Prim.Native.Nat.{
  ℕ, zero, suc, ◌+◌, ◌*◌, ◌/◌, ◌%◌, ◌^◌, ◌≤◌, ◌<◌, ◌-◌, min, max, bit_and, bit_or, digits,
  bit_and-bitwise, bit_or-bitwise,
}
use mathlib.Core.Path.{◌≡◌, refl, ap, sym, ◌∙◌}
use native.Mathlib.Nat.{pow-suc, one-le-pow}
use native.Mathlib.Omega.{arith}

-- The library's recursion on binary digits, for an operation `op` on digits and the result `rest` once
-- the first number has run out.
module _ (rest : ℕ → ℕ) (op : ℕ → ℕ → ℕ) where
  no_digits : (k y : ℕ) → digits rest op k 0 y ≡ rest y
  no_digits zero y = refl
  no_digits (suc k) y = refl

  -- Any count of rounds will do that is not less than the number.
  enough_rounds : (x y k l : ℕ) → x ≤ k → x ≤ l → digits rest op k x y ≡ digits rest op l x y
  enough_rounds zero y k l hk hl = no_digits k y ∙ sym (no_digits l y)
  enough_rounds (suc x) y zero l hk hl = absurd (omega arith)
  enough_rounds (suc x) y (suc k) zero hk hl = absurd (omega arith)
  enough_rounds (suc x) y (suc k) (suc l) hk hl =
      ap (λ (high : ℕ). high * 2 + op (suc x % 2) (y % 2))
        (enough_rounds (suc x / 2) (y / 2) k l (omega arith) (omega arith))

  lowest_digit :
      (x y : ℕ)
      → digits rest op (suc x) (suc x) y
        ≡ digits rest op (suc x / 2) (suc x / 2) (y / 2) * 2 + op (suc x % 2) (y % 2)
  lowest_digit x y =
      ap (λ (high : ℕ). high * 2 + op (suc x % 2) (y % 2))
        (enough_rounds (suc x / 2) (y / 2) x (suc x / 2) (omega arith) (omega arith))

-- `&` and `|` by the lowest binary digit of both numbers.
pub bit_and_digit : (x y : ℕ) → bit_and x y ≡ min (x % 2) (y % 2) + 2 * bit_and (x / 2) (y / 2)
bit_and_digit zero y = simp bit_and-bitwise (omega arith)
bit_and_digit (suc x) y =
    let digit = lowest_digit (λ t. 0) min x y in simp bit_and-bitwise (omega (arith, digit))

pub bit_or_digit : (x y : ℕ) → bit_or x y ≡ max (x % 2) (y % 2) + 2 * bit_or (x / 2) (y / 2)
bit_or_digit zero y = simp bit_or-bitwise (omega arith)
bit_or_digit (suc x) y =
    let digit = lowest_digit (λ t. t) max x y in simp bit_or-bitwise (omega (arith, digit))

-- Nothing to combine with: both go from `x / 2` to `x`, in at most `k` steps.
with_nothing : (k x : ℕ) → x ≤ k → (bit_or x 0 ≡ x) × (bit_and x 0 ≡ 0)
with_nothing k zero small = (refl, refl)
with_nothing zero (suc x) small = absurd (omega arith)
with_nothing (suc k) (suc x) small =
    let half = with_nothing k (suc x / 2) (omega arith) in
    (omega (arith, half.0, bit_or_digit (suc x) 0), omega (arith, half.1, bit_and_digit (suc x) 0))

bit_or-zero : (x : ℕ) → bit_or x 0 ≡ x
bit_or-zero x = (with_nothing x x (omega arith)).0

bit_and-zero : (x : ℕ) → bit_and x 0 ≡ 0
bit_and-zero x = (with_nothing x x (omega arith)).1

shift_suc : (q k : ℕ) → q * 2 ^ suc k ≡ 2 * (q * 2 ^ k)
shift_suc q k = ap (λ (power : ℕ). q * power) (pow-suc 2 k) ∙ omega arith

-- In `(high << w) | low` with a `low` of at most `w` digits no digit is in both numbers.
pub bit_or_fields : (w high low : ℕ) → low < 2 ^ w → bit_or (high * 2 ^ w) low ≡ high * 2 ^ w + low
bit_or_fields zero high low small = ground (arith, bit_or-zero high)
bit_or_fields (suc w) high low small =
    let digit = bit_or_digit (high * 2 ^ suc w) low in
    let above = bit_or_fields w high (low / 2) (omega arith) in
    ground (arith, digit, above, shift_suc high w)

below_mask : (w high low : ℕ) → low < 2 ^ w → bit_and (high * 2 ^ w + low) (2 ^ w - 1) ≡ low
below_mask zero high low small = rw bit_and-zero (omega arith)
below_mask (suc w) high low small =
    let digit = bit_and_digit (high * 2 ^ suc w + low) (2 ^ suc w - 1) in
    let above = below_mask w high (low / 2) (omega arith) in
    ground (arith, digit, above, shift_suc high w, pow-suc 2 w)

-- A mask of `k` ones keeps the remainder by `2 ^ k`.
pub bit_and_mask : (k a : ℕ) → bit_and a (2 ^ k - 1) ≡ a % 2 ^ k
bit_and_mask k a =
    let split = below_mask k (a / 2 ^ k) (a % 2 ^ k) in ground (arith, split, one-le-pow k 2)

div-div : (a k : ℕ) → a / 2 / 2 ^ k ≡ a / 2 ^ suc k
div-div a k = rw (pow-suc 2 k) (grind arith)

-- A mask with no low ones keeps the high part: `a & (m << k)` is `((a >> k) & m) << k`.
pub bit_and_shift : (k a m : ℕ) → bit_and a (m * 2 ^ k) ≡ bit_and (a / 2 ^ k) m * 2 ^ k
bit_and_shift zero a m = ground arith
bit_and_shift (suc k) a m = ground (
  arith,
  bit_and_digit a (m * 2 ^ suc k),
  shift_suc m k,
  shift_suc (bit_and (a / 2 ^ suc k) m) k,
  bit_and_shift k (a / 2) m,
  div-div a k,
)

-- `|` works on the high parts alone where one low part is zero.
pub bit_or_high :
    (k q m r : ℕ) → r < 2 ^ k → bit_or (q * 2 ^ k) (m * 2 ^ k + r) ≡ bit_or q m * 2 ^ k + r
bit_or_high zero q m r small = ground arith
bit_or_high (suc k) q m r small = ground (
  arith,
  bit_or_digit (q * 2 ^ suc k) (m * 2 ^ suc k + r),
  shift_suc q k,
  shift_suc m k,
  shift_suc (bit_or q m) k,
  bit_or_high k q m (r / 2) (omega arith),
)
