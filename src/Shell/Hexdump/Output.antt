-- ===== src/Shell/Hexdump/Output.antt =====
-- What `hexdump` prints.
use larch.Prelude.{
  if◌then◌else◌, ap, ◌∙◌, ℕ, zero, suc, ◌+◌, ◌/◌, ◌%◌, ◌^◌, ◌≤◌, ◌<◌, ◌≡◌, refl, true, false, some,
  List, [], ◌∷◌, ◌++◌, map, arith, ltb, length, take, drop, codes, get_or, get_elem?,
  get_elem?_exists, ==_iff, all_below, all_below_sound, ◌==◌, ◌&&◌, get_elem?-take, drop-eq-cons,
  length-take, drop-all, dec_lt, bit_and, ◌>>=◌,
}
use larch.Prelude.Bits.{bit_and_mask}
use larch.Console.{Event, put, writestring}
use larch.Shell.Hexdump.{hex, dump_column, columns_from, shown_char, chars_from, dump_line}

-- The hexadecimal digit of the low four bits: a numeral, or a letter from A on.
unfoldable pub digit : ℕ → ℕ
digit d = if ltb (d % 16) 10 then 48 + d % 16 else 55 + d % 16

-- How a byte is shown: as it is if it is printable ASCII, else as a dot.
unfoldable pub visible : ℕ → ℕ
visible c = if ltb 31 c && ltb c 127 then c else 46

shown_char-visible : (c : ℕ) → shown_char c ≡ visible c
unfolding shown_char visible
shown_char-visible c = ground arith

-- The columns of some bytes, `n` of them, with blanks behind the last byte.
unfoldable pub cells : ℕ → List ℕ → List Event
cells zero cs = []
cells (suc n) [] = put b' ' ∷ put b' ' ∷ put b' ' ∷ cells n []
cells (suc n) (c ∷ cs) = put (digit (c / 16)) ∷ put (digit c) ∷ put b' ' ∷ cells n cs

-- The line of at most sixteen bytes.
unfoldable pub line : List ℕ → List Event
line cs =
    cells 8 cs
    ++ ((put b' ' ∷ [])
        ++ (cells 8 (drop 8 cs)
            ++ ((put b'|' ∷ []) ++ (map (λ c. put (visible c)) cs ++ writestring (codes "|\n")))))

get_or-in : (xs : List ℕ) (i : ℕ) → i < length xs → get_elem? xs i ≡ some (get_or xs i 0)
get_or-in [] i h = absurd (omega arith)
get_or-in (x ∷ xs) zero h = refl
get_or-in (x ∷ xs) (suc i) h = get_or-in xs i (omega arith)

hex-digit : (i : ℕ) → i < 16 → get_or hex i 0 ≡ digit i
unfolding digit all_below
hex-digit i h =
    (==_iff (get_or hex i 0) (digit i)).0
      (all_below_sound 16 (λ n. get_or hex n 0 == digit n) i refl h)

get_elem?-hex : (d : ℕ) → get_elem? hex (bit_and d 0xF) ≡ some (digit d)
unfolding digit
get_elem?-hex d =
    let low : d % 2 ^ 4 < 16 = omega arith in
    let once : d % 2 ^ 4 % 16 ≡ d % 16 = omega arith in
    rw (bit_and_mask 4 d)
      (get_or-in hex (d % 2 ^ 4) low ∙ ap some (hex-digit (d % 2 ^ 4) low ∙ rw once refl))

column_in :
    (bytes i b : ℕ) (buf : List ℕ)
    → i < bytes
    → get_elem? buf i ≡ some b
    → dump_column bytes i buf ≡ some (put (digit (b / 16)) ∷ put (digit b) ∷ put b' ' ∷ [])
unfolding dump_column
column_in bytes i b buf h e =
    let inside : ltb i bytes ≡ true = ground arith in
    let high : get_elem? hex (bit_and (b / 2 ^ 4) 0xF) ≡ some (digit (b / 16)) =
      get_elem?-hex (b / 16) in
    rw (inside, e, ◌>>=◌, high, get_elem?-hex b) refl

column_out :
    (bytes i : ℕ) (buf : List ℕ)
    → bytes ≤ i
    → dump_column bytes i buf ≡ some (put b' ' ∷ put b' ' ∷ put b' ' ∷ [])
unfolding dump_column
column_out bytes i buf h = let outside : ltb i bytes ≡ false = ground arith in rw outside refl

columns_from_lem :
    (left i bytes : ℕ) (buf : List ℕ)
    → bytes ≤ length buf
    → columns_from left i bytes buf ≡ some (cells left (drop i (take bytes buf)))
unfolding columns_from cells
columns_from_lem zero i bytes buf h = refl
columns_from_lem (suc left) i bytes buf h = elim (dec_lt i bytes) [
  | yes inside ↦
      let (b, e) = get_elem?_exists buf i (omega arith) in
      let at = get_elem?-take bytes i buf inside ∙ e in
      rw
        (
          column_in bytes i b buf inside e,
          ◌>>=◌,
          columns_from_lem left (suc i) bytes buf h,
          drop-eq-cons (take bytes buf) i at,
        )
        refl
  | no outside ↦
      let short = length-take bytes buf in
      let end : drop i (take bytes buf) ≡ [] = drop-all i (take bytes buf) (omega arith) in
      let after : drop (suc i) (take bytes buf) ≡ [] =
        drop-all (suc i) (take bytes buf) (omega arith) in
      rw
        (
          column_out bytes i buf (omega arith),
          ◌>>=◌,
          columns_from_lem left (suc i) bytes buf h,
          end,
          after,
        )
        refl
]

chars_from_lem :
    (left i : ℕ) (buf : List ℕ)
    → i + left ≤ length buf
    → chars_from left i buf ≡ some (map (λ c. put (visible c)) (take left (drop i buf)))
unfolding chars_from
chars_from_lem zero i buf h = refl
chars_from_lem (suc left) i buf h =
    let (c, e) = get_elem?_exists buf i (omega arith) in
    rw
      (
        e,
        ◌>>=◌,
        shown_char-visible c,
        chars_from_lem left (suc i) buf (omega arith),
        drop-eq-cons buf i e,
      )
      refl

pub dump_line_lem :
    (bytes : ℕ) (buf : List ℕ)
    → bytes ≤ length buf
    → dump_line bytes buf ≡ some (line (take bytes buf))
unfolding dump_line line
dump_line_lem bytes buf h =
    rw
      (
        columns_from_lem 8 0 bytes buf h,
        ◌>>=◌,
        columns_from_lem 8 8 bytes buf h,
        chars_from_lem bytes 0 buf (omega arith),
      )
      refl
