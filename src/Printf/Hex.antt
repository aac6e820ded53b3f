-- ===== src/Printf/Hex.antt =====
-- The eight digits that `%x` and `%X` print.
use larch.Prelude.{
  ℕ, ◌+◌, ◌-◌, ◌*◌, ◌/◌, ◌%◌, ◌^◌, ◌<◌, ◌≡◌, refl, true, false, not, some, List, [], ◌∷◌, ◌==◌, map,
  arith, ltb, if◌then◌else◌, get_elem?, get_or, bit_and, all_below, all_below_sound, ==_iff, length,
  get_elem?-eq-get_or,
}
use larch.Prelude.Bits.{bit_and_mask}
use larch.Console.{put}
use larch.Printf.{hex_table, fill_hex, c_string, print_hex}

pub hex_char : ℕ → ℕ
hex_char d = get_or hex_table d 0

-- The value of a hexadecimal digit.
pub hex_value : ℕ → ℕ
hex_value c = if ltb c b'A' then c - b'0' else c + 10 - b'A'

-- Reading a hexadecimal numeral, the highest digit first.
abbrev pub read_hex : ℕ → List ℕ → ℕ
read_hex acc [] = acc
read_hex acc (c ∷ s) = read_hex (acc * 16 + hex_value c) s

value_table : all_below 16 (λ d. hex_value (hex_char d) == d) ≡ true
unfolding all_below hex_value hex_char
value_table = refl

nonzero_table : all_below 16 (λ d. not (hex_char d == 0)) ≡ true
unfolding all_below hex_char
nonzero_table = refl

pub hex_value-hex_char : (x : ℕ) → hex_value (hex_char (x % 16)) ≡ x % 16
hex_value-hex_char x =
    (==_iff _ (x % 16)).0 (all_below_sound 16 _ (x % 16) value_table (omega arith))

hex_char-nonzero : (x : ℕ) → (hex_char (x % 16) == 0) ≡ false
hex_char-nonzero x =
    ground (arith, all_below_sound 16 (λ d. not (hex_char d == 0)) (x % 16) nonzero_table)

pub get_elem?-hex_table : (x : ℕ) → get_elem? hex_table (bit_and x 0xF) ≡ some (hex_char (x % 16))
unfolding hex_char
get_elem?-hex_table x =
    rw (bit_and_mask 4 x) (get_elem?-eq-get_or hex_table (x % 16) 0 (omega arith))

-- The numeral of a 32-bit word in hexadecimal, with eight digits.
unfoldable pub hexadecimal : ℕ → List ℕ
hexadecimal n =
    hex_char (n / 2 ^ 28 % 16)
    ∷ hex_char (n / 2 ^ 24 % 16)
    ∷ hex_char (n / 2 ^ 20 % 16)
    ∷ hex_char (n / 2 ^ 16 % 16)
    ∷ hex_char (n / 2 ^ 12 % 16)
    ∷ hex_char (n / 2 ^ 8 % 16)
    ∷ hex_char (n / 2 ^ 4 % 16)
    ∷ hex_char (n / 2 ^ 0 % 16)
    ∷ []

pub print_hex-hexadecimal : (n : ℕ) → print_hex n 8 ≡ some (map put (hexadecimal n))
unfolding print_hex fill_hex c_string hexadecimal
print_hex-hexadecimal n = simp (get_elem?-hex_table, hex_char-nonzero)

pub hexadecimal_lem : (n : ℕ) → n < 2 ^ 32 → read_hex 0 (hexadecimal n) ≡ n
unfolding hexadecimal
hexadecimal_lem n h = simp hex_value-hex_char (omega arith)

length-hexadecimal : (n : ℕ) → length (hexadecimal n) ≡ 8
unfolding hexadecimal
length-hexadecimal n = refl

-- `print_hex` of a 32-bit word at eight digits prints eight digits that read back as the word.
pub print_hex_lem :
    (n : ℕ)
    → n < 2 ^ 32
    → (s : List ℕ) × (print_hex n 8 ≡ some (map put s)) × (length s ≡ 8) × (read_hex 0 s ≡ n)
print_hex_lem n h =
    (hexadecimal n, print_hex-hexadecimal n, length-hexadecimal n, hexadecimal_lem n h)
