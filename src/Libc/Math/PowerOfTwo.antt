-- ===== src/Libc/Math/PowerOfTwo.antt =====
-- `is_power_of_two` decides being a power of two.
use larch.Prelude.{
  ℕ, zero, suc, ◌+◌, ◌-◌, ◌*◌, ◌/◌, ◌%◌, ◌^◌, ◌≤◌, ◌<◌, ◌≡◌, refl, ap, ◌≢◌, ◌↔◌, true, arith,
  bit_and, ℕ_discrete, eq→==, ne→==, ==_iff,
}
use larch.Prelude.Bits.{bit_and_digit}
use native.Mathlib.Nat.{pow-suc, one-le-pow}
use larch.Libc.Math.{is_power_of_two}

bit_and_self : (n a : ℕ) → a ≤ n → bit_and a a ≡ a
bit_and_self n zero h = refl
bit_and_self zero (suc a) h = absurd (omega arith)
bit_and_self (suc n) (suc a) h =
    omega (arith, bit_and_digit (suc a) (suc a), bit_and_self n (suc a / 2) (omega arith))

abbrev IsPowerOfTwo : ℕ → Type 0
IsPowerOfTwo x = (k : ℕ) × (x ≡ 2 ^ k)

module _ (x : ℕ) where
  odd-clears : x % 2 ≡ 1 → x ≢ 1 → bit_and x (x - 1) ≢ 0
  odd-clears odd big =
      let half : (x - 1) / 2 ≡ x / 2 = omega arith in
      omega (
        arith,
        bit_and_digit x (x - 1),
        ap (bit_and (x / 2)) half,
        bit_and_self (x / 2) (x / 2) (omega arith),
      )

  odd-power : x % 2 ≡ 1 → x ≢ 1 → ¬ IsPowerOfTwo x
  odd-power odd big (zero, e) = big e
  odd-power odd big (suc k, e) = omega (arith, pow-suc 2 k)

  even-clears : x % 2 ≡ 0 → 0 < x → bit_and x (x - 1) ≡ bit_and (x / 2) (x / 2 - 1) * 2
  even-clears even big =
      let half : (x - 1) / 2 ≡ x / 2 - 1 = omega arith in
      omega (arith, bit_and_digit x (x - 1), ap (bit_and (x / 2)) half)

  even-power : x % 2 ≡ 0 → IsPowerOfTwo (x / 2) ↔ IsPowerOfTwo x
  even-power even = (λ (k, e). (suc k, omega (arith, pow-suc 2 k)), half)
    where
      half : IsPowerOfTwo x → IsPowerOfTwo (x / 2)
      half (zero, e) = absurd (omega arith)
      half (suc k, e) = (k, omega (arith, pow-suc 2 k))

-- `x & (x - 1)` is zero exactly for the powers of two.
clears_lowest : (n x : ℕ) → 0 < x → x ≤ n → (bit_and x (x - 1) ≡ 0) ↔ IsPowerOfTwo x
clears_lowest zero x big h = absurd (omega arith)
clears_lowest (suc n) x big h = elim (ℕ_discrete (x % 2) 0) [
  | yes even ↦
      let ih = clears_lowest n (x / 2) (omega arith) (omega arith) in
      let e = even-clears x even big in
      let p = even-power x even in (λ z. p.0 (ih.0 (omega arith)), λ q. omega (arith, ih.1 (p.1 q)))
  | no odd ↦ elim (ℕ_discrete x 1) [
    | yes one ↦ (λ z. (0, one), λ q. rw one refl)
    | no other ↦ (
      λ z. absurd (odd-clears x (omega arith) other z),
      λ q. absurd (odd-power x (omega arith) other q),
    )
  ]
]

-- For a 32-bit word `is_power_of_two` is true exactly for the numbers 2 ^ k.
pub is_power_of_two_iff :
    (x : ℕ) → x < 2 ^ 32 → (is_power_of_two x ≡ true) ↔ ((k : ℕ) × (x ≡ 2 ^ k))
unfolding is_power_of_two
is_power_of_two_iff zero h = (λ t. cc, λ (k, e). absurd (omega (arith, one-le-pow k 2)))
is_power_of_two_iff (suc n) h =
    let word : (suc n + 2 ^ 32 - 1) % 2 ^ 32 ≡ suc n - 1 = omega arith in
    let c = clears_lowest (suc n) (suc n) (omega arith) (omega arith) in
    rw (word, ne→== (suc n) 0 (omega arith)) (λ t. c.0 ((==_iff _ 0).0 t), λ q. eq→== _ 0 (c.1 q))
