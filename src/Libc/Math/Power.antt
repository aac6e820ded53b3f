-- ===== src/Libc/Math/Power.antt =====
-- `pow_u32` is the power modulo 2 ^ 32.
use larch.Prelude.{
  ℕ, zero, suc, ◌+◌, ◌*◌, ◌/◌, ◌%◌, ◌^◌, ◌<◌, ◌≡◌, ◌≢◌, refl, ap, ◌∙◌, sym, some, arith, ℕ_discrete,
  eq→==, ne→==,
}
use larch.Prelude.Bits.{bit_and_mask}
use native.Mathlib.Nat.{pow-zero, pow-suc, mul_assoc, mul_comm, add-mul-mod_self_left, div-add-mod}
use larch.Libc.Math.{pow_from, pow_u32}

module _ (w : ℕ) where
  -- A factor may be reduced before the product is.
  mod-mul : (a b : ℕ) → a % w * b % w ≡ a * b % w
  mod-mul a b =
      sym (add-mul-mod_self_left (a % w * b) w (a / w * b)) ∙ ap (λ (t : ℕ). t % w) (expand)
    where
      expand : a % w * b + w * (a / w * b) ≡ a * b
      expand = omega (arith, ap (λ (t : ℕ). t * b) (div-add-mod a w), mul_assoc w (a / w) b)

  mul-mod : (a b : ℕ) → a * (b % w) % w ≡ a * b % w
  mul-mod a b = rw (mul_comm a (b % w), mod-mul b a, mul_comm b a) refl

  pow-mod : (a n : ℕ) → (a % w) ^ n % w ≡ a ^ n % w
  pow-mod a zero = rw (pow-zero (a % w), pow-zero a) refl
  pow-mod a (suc n) =
      rw (pow-suc (a % w) n, pow-suc a n, mul-mod, ← mod-mul ((a % w) ^ n) a, pow-mod a n, mod-mul)
        refl

  -- The square of the base, and the accumulator, may be reduced.
  reduced : (r b k : ℕ) → r % w * (b * b % w) ^ k % w ≡ r * (b * b) ^ k % w
  reduced r b k = rw (mod-mul, ← mul-mod r ((b * b % w) ^ k), pow-mod (b * b) k, mul-mod) refl

pow-double : (b k : ℕ) → b ^ (k + k) ≡ (b * b) ^ k
pow-double b zero = rw (pow-zero b, pow-zero (b * b)) refl
pow-double b (suc k) =
    let e : suc k + suc k ≡ suc (suc (k + k)) = omega arith in
    rw (e, pow-suc b (suc (k + k)), pow-suc b (k + k), pow-suc (b * b) k, pow-double b k, mul_assoc)
      refl

even_power : (b e : ℕ) → e % 2 ≡ 0 → b ^ e ≡ (b * b) ^ (e / 2)
even_power b e h =
    let split : e ≡ e / 2 + e / 2 = omega arith in
    ap (λ (t : ℕ). b ^ t) split ∙ pow-double b (e / 2)

odd_power : (b e : ℕ) → e % 2 ≡ 1 → b ^ e ≡ b * (b * b) ^ (e / 2)
odd_power b e h =
    let split : e ≡ suc (e / 2 + e / 2) = omega arith in
    ap (λ (t : ℕ). b ^ t) split
    ∙ (pow-suc b (e / 2 + e / 2)
        ∙ (mul_comm (b ^ (e / 2 + e / 2)) b ∙ ap (λ (t : ℕ). b * t) (pow-double b (e / 2))))

even_step :
    (b e r : ℕ)
    → e % 2 ≡ 0
    → r < 2 ^ 32
    → r * (b * b % 2 ^ 32) ^ (e / 2) % 2 ^ 32 ≡ r * b ^ e % 2 ^ 32
even_step b e r h k =
    let small : r % 2 ^ 32 ≡ r = omega arith in
    rw (even_power b e h, ← reduced (2 ^ 32) r b (e / 2), small) refl

odd_step :
    (b e r : ℕ)
    → e % 2 ≡ 1
    → r * b % 2 ^ 32 * (b * b % 2 ^ 32) ^ (e / 2) % 2 ^ 32 ≡ r * b ^ e % 2 ^ 32
odd_step b e r h = rw (odd_power b e h, reduced (2 ^ 32) (r * b) b (e / 2), mul_assoc) refl

pow_from-zero : (fuel base result : ℕ) → pow_from (suc fuel) base 0 result ≡ some result
unfolding pow_from
pow_from-zero fuel base result = refl

pow_from-even :
    (fuel base exp result : ℕ)
    → exp ≢ 0
    → exp % 2 ≡ 0
    → pow_from (suc fuel) base exp result ≡ pow_from fuel (base * base % 2 ^ 32) (exp / 2) result
unfolding pow_from
pow_from-even fuel base exp result nz e =
    rw (ne→== exp 0 nz, bit_and_mask 1 exp, eq→== (exp % 2) 0 e) refl

pow_from-odd :
    (fuel base exp result : ℕ)
    → exp ≢ 0
    → exp % 2 ≡ 1
    → pow_from (suc fuel) base exp result
      ≡ pow_from fuel (base * base % 2 ^ 32) (exp / 2) (result * base % 2 ^ 32)
unfolding pow_from
pow_from-odd fuel base exp result nz e =
    rw (ne→== exp 0 nz, bit_and_mask 1 exp, ne→== (exp % 2) 0 (omega arith)) refl

no_exponent :
    (fuel base exp result : ℕ)
    → exp ≡ 0
    → result < 2 ^ 32
    → pow_from (suc fuel) base exp result ≡ some (result * base ^ exp % 2 ^ 32)
no_exponent fuel base exp result z r =
    rw (z, pow_from-zero fuel base result, pow-zero base) (ap some (omega arith))

-- The loop keeps `result * base ^ exp` modulo 2 ^ 32.
pow_from_lem :
    (fuel base exp result : ℕ)
    → exp < 2 ^ fuel
    → result < 2 ^ 32
    → pow_from (suc fuel) base exp result ≡ some (result * base ^ exp % 2 ^ 32)
pow_from_lem zero base exp result h r = no_exponent zero base exp result (omega arith) r
pow_from_lem (suc fuel) base exp result h r = elim (ℕ_discrete exp 0) [
  | yes z ↦ no_exponent (suc fuel) base exp result z r
  | no nz ↦ elim (ℕ_discrete (exp % 2) 0) [
    | yes even ↦
        pow_from-even (suc fuel) base exp result nz even
        ∙ (pow_from_lem fuel (base * base % 2 ^ 32) (exp / 2) result (omega (arith, pow-suc 2 fuel))
              r
            ∙ ap some (even_step base exp result even r))
    | no odd ↦
        pow_from-odd (suc fuel) base exp result nz (omega arith)
        ∙ (pow_from_lem fuel (base * base % 2 ^ 32) (exp / 2) (result * base % 2 ^ 32)
              (omega (arith, pow-suc 2 fuel)) (omega arith)
            ∙ ap some (odd_step base exp result (omega arith)))
  ]
]

-- For every 32-bit base and exponent `pow_u32` ends and returns the power modulo 2 ^ 32.
pub pow_u32_lem : (base exp : ℕ) → exp < 2 ^ 32 → pow_u32 base exp ≡ some (base ^ exp % 2 ^ 32)
unfolding pow_u32
pow_u32_lem base exp h =
    let e : 1 * base ^ exp ≡ base ^ exp = omega arith in
    pow_from_lem 32 base exp 1 h (omega arith) ∙ ap (λ (t : ℕ). some (t % 2 ^ 32)) e
