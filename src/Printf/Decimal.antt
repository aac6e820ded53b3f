-- ===== src/Printf/Decimal.antt =====
-- The digits that `print_dec` and the shell's commands print.
use larch.Prelude.{
  ℕ, zero, suc, ◌+◌, ◌-◌, ◌*◌, ◌/◌, ◌%◌, ◌^◌, ◌≤◌, ◌<◌, ◌≡◌, refl, ap, ◌∙◌, ◌≢◌, none, some, List,
  [], ◌∷◌, ◌++◌, map, append_assoc, arith, ◌==◌, ◌>>=◌, if◌then◌else◌, length, take, set, replicate,
  length-set, set?-eq-set, set?-eq-none, take-set, take-suc, append-nil, get_elem?_exists, eq→==,
  ne→==, dec_lt, ℕ_discrete,
}
use mathlib.Core.List.{reverse, reverse-append, reverse-cons}
use native.Mathlib.Nat.{pow-suc, one-le-pow}
use larch.Console.{put}
use larch.Printf.{fill_digits, drain_digits, print_dec}

-- The decimal digits of a number, the lowest first, and none of zero.
pub low_digits : ℕ → ℕ → List ℕ
low_digits zero n = []
low_digits (suc f) n =
    let rest = (b'0' + n % 10) ∷ low_digits f (n / 10) in if n == 0 then [] else rest

-- Reading a numeral, the highest digit first.
abbrev pub read_decimal : ℕ → List ℕ → ℕ
read_decimal acc [] = acc
read_decimal acc (c ∷ s) = read_decimal (acc * 10 + (c - b'0')) s

read_decimal-snoc :
    (acc : ℕ) (s : List ℕ) (c : ℕ)
    → read_decimal acc (s ++ (c ∷ [])) ≡ read_decimal acc s * 10 + (c - b'0')
read_decimal-snoc acc [] c = refl
read_decimal-snoc acc (x ∷ s) c = read_decimal-snoc (acc * 10 + (x - b'0')) s c

pub read_decimal-low_digits : (f n : ℕ) → n < 10 ^ f → read_decimal 0 (reverse (low_digits f n)) ≡ n
unfolding low_digits
read_decimal-low_digits zero n h = omega arith
read_decimal-low_digits (suc f) n h = elim (ℕ_discrete n 0) [
  | yes z ↦ rw (eq→== n 0 z) (omega arith)
  | no nz ↦
      rw
        (
          ne→== n 0 nz,
          reverse-cons,
          read_decimal-snoc,
          read_decimal-low_digits f (n / 10) (omega (arith, pow-suc 10 f)),
        )
        (omega arith)
]

low_digits-suc : (f n : ℕ) → n ≢ 0 → low_digits (suc f) n ≡ (b'0' + n % 10) ∷ low_digits f (n / 10)
unfolding low_digits
low_digits-suc f n nz = rw (ne→== n 0 nz) refl

fill_digits-suc :
    (f n : ℕ) (buf : List ℕ) (i : ℕ)
    → n ≢ 0
    → i < length buf
    → fill_digits (suc f) n buf i ≡ fill_digits f (n / 10) (set buf i (b'0' + n % 10)) (suc i)
unfolding fill_digits
fill_digits-suc f n buf i nz h = ground (arith, set?-eq-set buf i (b'0' + n % 10))

-- With room for the digits the loop stores them, the lowest first, after what was there.
pub fill_digits_lem :
    (f n : ℕ) (buf : List ℕ) (i : ℕ)
    → n < 10 ^ f
    → i + length (low_digits f n) ≤ length buf
    → (r : List ℕ × ℕ) × (fill_digits (suc f) n buf i ≡ some r)
      × (take r.1 r.0 ≡ take i buf ++ low_digits f n)
      × (r.1 ≤ length r.0)
unfolding low_digits
fill_digits_lem zero n buf i h k =
    ((buf, i), unfold fill_digits in ground arith, rw append-nil refl, omega arith)
fill_digits_lem (suc f) n buf i h k = elim (ℕ_discrete n 0) [
  | yes z ↦
      ((buf, i), unfold fill_digits in ground arith, rw (eq→== n 0 z, append-nil) refl, omega arith)
  | no nz ↦
      let room : i + suc (length (low_digits f (n / 10))) ≤ length buf =
        omega (arith, ap length (low_digits-suc f n nz)) in
      let c = b'0' + n % 10 in
      let (r, er, tr, lr) =
        fill_digits_lem f (n / 10) (set buf i c) (suc i) (omega (arith, pow-suc 10 f))
          (rw length-set (omega arith)) in
      (
        r,
        fill_digits-suc (suc f) n buf i nz (omega arith) ∙ er,
        tr ∙ rw (low_digits-suc f n nz, take-set buf i c (omega arith), append_assoc) refl,
        lr,
      )
]

-- Without room for the digits the loop writes past the array.
pub fill_digits-overflow :
    (f n : ℕ) (buf : List ℕ) (i : ℕ)
    → length buf < i + length (low_digits f n)
    → i ≤ length buf
    → fill_digits (suc f) n buf i ≡ none
unfolding low_digits
fill_digits-overflow zero n buf i h k = absurd (omega arith)
fill_digits-overflow (suc f) n buf i h k = elim (ℕ_discrete n 0) [
  | yes z ↦ absurd (omega (arith, ap (λ (m : ℕ). length (low_digits (suc f) m)) z))
  | no nz ↦
      let c = b'0' + n % 10 in
      let long : length buf < i + suc (length (low_digits f (n / 10))) =
        omega (arith, ap length (low_digits-suc f n nz)) in
      elim (dec_lt i (length buf)) [
        | yes p ↦
            fill_digits-suc (suc f) n buf i nz p
            ∙ fill_digits-overflow f (n / 10) (set buf i c) (suc i) (rw length-set (omega arith))
                (rw length-set p)
        | no p ↦ unfold fill_digits in ground (arith, set?-eq-none buf i c (omega arith))
      ]
]

-- A number from `10 ^ k` on has more than `k` digits, and one below `10 ^ k` has at most `k`.
pub length-low_digits_gt : (k f n : ℕ) → 10 ^ k ≤ n → n < 10 ^ f → k < length (low_digits f n)
unfolding low_digits
length-low_digits_gt k zero n h b = absurd (omega (arith, one-le-pow k 10))
length-low_digits_gt zero (suc f) n h b =
    let nz : n ≢ 0 = omega arith in omega (arith, ap length (low_digits-suc f n nz))
length-low_digits_gt (suc k) (suc f) n h b =
    let nz : n ≢ 0 = omega (arith, one-le-pow (suc k) 10) in
    let rest : k < length (low_digits f (n / 10)) =
      length-low_digits_gt k f (n / 10) (omega (arith, pow-suc 10 k))
        (omega (arith, pow-suc 10 f)) in
    omega (arith, ap length (low_digits-suc f n nz))

pub length-low_digits_le : (k f n : ℕ) → n < 10 ^ k → length (low_digits f n) ≤ k
unfolding low_digits
length-low_digits_le k zero n h = omega arith
length-low_digits_le zero (suc f) n h =
    let z : n ≡ 0 = omega arith in rw (eq→== n 0 z) (omega arith)
length-low_digits_le (suc k) (suc f) n h = elim (ℕ_discrete n 0) [
  | yes z ↦ rw (eq→== n 0 z) (omega arith)
  | no nz ↦
      rw (low_digits-suc f n nz)
        (omega (arith, length-low_digits_le k f (n / 10) (omega (arith, pow-suc 10 k))))
]

pub drain_digits_lem :
    (i : ℕ) (buf : List ℕ)
    → i ≤ length buf
    → drain_digits i buf ≡ some (map put (reverse (take i buf)))
unfolding drain_digits
drain_digits_lem zero buf h = refl
drain_digits_lem (suc i) buf h =
    let (c, ec) = get_elem?_exists buf i h in
    rw (ec, drain_digits_lem i buf (omega arith), take-suc buf i ec, reverse-append) refl

-- A numeral is written with decimal digits only.
abbrev pub AllDigits : List ℕ → Type 0
AllDigits [] = Unit {0}
AllDigits (c ∷ s) = (b'0' ≤ c) × (c ≤ b'9') × AllDigits s

AllDigits-append : (s t : List ℕ) → AllDigits s → AllDigits t → AllDigits (s ++ t)
AllDigits-append [] t hs ht = ht
AllDigits-append (c ∷ s) t hs ht = (hs.0, hs.1, AllDigits-append s t hs.2 ht)

AllDigits-reverse : (s : List ℕ) → AllDigits s → AllDigits (reverse s)
AllDigits-reverse [] h = tt
AllDigits-reverse (c ∷ s) h =
    rw reverse-cons (AllDigits-append (reverse s) (c ∷ []) (AllDigits-reverse s h.2) (h.0, h.1, tt))

low_digits-AllDigits : (f n : ℕ) → AllDigits (low_digits f n)
unfolding low_digits
low_digits-AllDigits zero n = tt
low_digits-AllDigits (suc f) n = elim (ℕ_discrete n 0) [
  | yes z ↦ rw (eq→== n 0 z) tt
  | no nz ↦ rw (low_digits-suc f n nz) (omega arith, omega arith, low_digits-AllDigits f (n / 10))
]

-- The loop that stores the digits and the loop that prints them, where `k` digits fit.
pub fill-drain :
    (n k : ℕ) (buf : List ℕ)
    → n < 10 ^ 10
    → n < 10 ^ k
    → k ≤ length buf
    → (fill_digits 11 n buf 0 >>= λ r. drain_digits r.1 r.0)
      ≡ some (map put (reverse (low_digits 10 n)))
fill-drain n k buf h hk hb =
    let (r, er, tr, lr) =
      fill_digits_lem 10 n buf 0 h (omega (arith, length-low_digits_le k 10 n hk)) in
    ground (arith, drain_digits_lem r.1 r.0 lr)

-- The numeral of `n` in decimal: "0", or the digits, the highest first.
unfoldable pub decimal : ℕ → List ℕ
decimal n = if n == 0 then b'0' ∷ [] else reverse (low_digits 10 n)

-- `print_dec` of a 32-bit word stays inside of its array and prints the numeral of the word.
pub print_dec-decimal : (n : ℕ) → n < 2 ^ 32 → print_dec n ≡ some (map put (decimal n))
unfolding print_dec decimal
print_dec-decimal n h = elim (ℕ_discrete n 0) [
  | yes z ↦ rw (eq→== n 0 z) refl
  | no nz ↦
      rw (ne→== n 0 nz) (fill-drain n 10 (replicate 12 0) (omega arith) (omega arith) (omega arith))
]

-- The numeral reads back as the number, and its characters are digits.
pub decimal_lem : (n : ℕ) → n < 2 ^ 32 → (read_decimal 0 (decimal n) ≡ n) × AllDigits (decimal n)
unfolding decimal
decimal_lem n h = elim (ℕ_discrete n 0) [
  | yes z ↦ rw (eq→== n 0 z) (omega arith)
  | no nz ↦ rw (ne→== n 0 nz) (
    read_decimal-low_digits 10 n (omega arith),
    AllDigits-reverse (low_digits 10 n) (low_digits-AllDigits 10 n),
  )
]

-- `print_dec` of a 32-bit word prints a numeral: decimal digits alone, which read back as the word.
pub print_dec_lem :
    (n : ℕ)
    → n < 2 ^ 32
    → (s : List ℕ) × (print_dec n ≡ some (map put s)) × (read_decimal 0 s ≡ n) × AllDigits s
print_dec_lem n h = (decimal n, print_dec-decimal n h, (decimal_lem n h).0, (decimal_lem n h).1)
