-- ===== src/Printf/Format.antt =====
-- What `kprintf` prints, for a format that is spelled from its pieces.
use larch.Prelude.{
  ℕ, ◌%◌, ◌^◌, ◌<◌, ◌≡◌, refl, ◌≢◌, false, none, some, List, [], ◌∷◌, ◌++◌, map, arith, ◌==◌, ◌||◌,
  Bool, IsText,
}
use mathlib.Core.List.{map-append}
use larch.Console.{Event, put}
use larch.Printf.{Arg, word, text, convert, next_word, next_text, kprintf}
use larch.Printf.Decimal.{decimal, print_dec-decimal}
use larch.Printf.Hex.{hexadecimal, print_hex-hexadecimal}

-- A part of a format: a plain character, or a directive with the argument that it takes.
pub data Piece : Type 0 where
  plain : ℕ → Piece
  str : List ℕ → Piece
  dec int hex upper_hex chr : ℕ → Piece
  percent : Piece
  other : ℕ → Piece

-- The characters after a '%' that the `switch` has a case for.
abbrev is_directive : ℕ → Bool
is_directive c =
    (c == b's')
    || (c == b'd')
    || (c == b'i')
    || (c == b'x')
    || (c == b'X')
    || (c == b'c')
    || (c == b'%')

abbrev pub spell : Piece → List ℕ
spell (plain c) = c ∷ []
spell (str s) = b'%' ∷ b's' ∷ []
spell (dec n) = b'%' ∷ b'd' ∷ []
spell (int n) = b'%' ∷ b'i' ∷ []
spell (hex n) = b'%' ∷ b'x' ∷ []
spell (upper_hex n) = b'%' ∷ b'X' ∷ []
spell (chr n) = b'%' ∷ b'c' ∷ []
spell percent = b'%' ∷ b'%' ∷ []
spell (other c) = b'%' ∷ c ∷ []

abbrev pub arguments : Piece → List Arg
arguments (str s) = text s ∷ []
arguments (dec n) = word n ∷ []
arguments (int n) = word n ∷ []
arguments (hex n) = word n ∷ []
arguments (upper_hex n) = word n ∷ []
arguments (chr n) = word n ∷ []
arguments _ = []

-- What a reader expects of the piece on the screen.
abbrev pub shown : Piece → List ℕ
shown (plain c) = c ∷ []
shown (str s) = s
shown (dec n) = decimal n
shown (int n) = decimal n
shown (hex n) = hexadecimal n
shown (upper_hex n) = hexadecimal n
shown (chr n) = n % 2 ^ 8 ∷ []
shown percent = b'%' ∷ []
shown (other c) = b'%' ∷ c ∷ []

-- No text holds a NUL, plain characters are not '%', words have 32 bits, and `other` is no directive of the `switch`.
abbrev pub IsGood : Piece → Type 0
IsGood (plain c) = (c ≢ 0) × (c ≢ b'%')
IsGood (str s) = IsText s
IsGood (dec n) = n < 2 ^ 32
IsGood (int n) = n < 2 ^ 32
IsGood (hex n) = n < 2 ^ 32
IsGood (upper_hex n) = n < 2 ^ 32
IsGood (chr n) = n < 2 ^ 32
IsGood percent = Unit {0}
IsGood (other c) = (c ≢ 0) × (is_directive c ≡ false)

abbrev pub AllGood : List Piece → Type 0
AllGood [] = Unit {0}
AllGood (p ∷ ps) = IsGood p × AllGood ps

abbrev pub format : List Piece → List ℕ
format [] = []
format (p ∷ ps) = spell p ++ format ps

abbrev pub all_arguments : List Piece → List Arg
all_arguments [] = []
all_arguments (p ∷ ps) = arguments p ++ all_arguments ps

abbrev pub all_shown : List Piece → List ℕ
all_shown [] = []
all_shown (p ∷ ps) = shown p ++ all_shown ps

kprintf-plain :
    (c : ℕ) (fmt : List ℕ) (args : List Arg) (out : List Event)
    → c ≢ b'%'
    → kprintf fmt args ≡ some out
    → kprintf (c ∷ fmt) args ≡ some (put c ∷ out)
unfolding kprintf
kprintf-plain c [] args out ne h = ground arith
kprintf-plain c (d ∷ fmt) args out ne h = ground arith

kprintf-directive :
    (d : ℕ) (fmt : List ℕ) (args left : List Arg) (here out : List Event)
    → convert d args ≡ some (here, left)
    → kprintf fmt left ≡ some out
    → kprintf (b'%' ∷ d ∷ fmt) args ≡ some (here ++ out)
unfolding kprintf
kprintf-directive d fmt args left here out e h = ground arith

-- Every directive takes its argument and prints it.
convert_lem :
    (d : ℕ) (p : Piece) (rest : List Arg)
    → spell p ≡ b'%' ∷ d ∷ []
    → IsGood p
    → convert d (arguments p ++ rest) ≡ some (map put (shown p), rest)
unfolding convert next_word next_text
convert_lem d (plain c) rest e g = cc
convert_lem d (str s) rest e g = ground arith
convert_lem d (dec n) rest e g = ground (arith, print_dec-decimal n)
convert_lem d (int n) rest e g = ground (arith, print_dec-decimal n)
convert_lem d (hex n) rest e g = ground (arith, print_hex-hexadecimal n)
convert_lem d (upper_hex n) rest e g = ground (arith, print_hex-hexadecimal n)
convert_lem d (chr n) rest e g = ground arith
convert_lem d percent rest e g = ground arith
convert_lem d (other c) rest e g = ground arith

module _ (p : Piece) (ps : List Piece) (d : ℕ) (e : spell p ≡ b'%' ∷ d ∷ []) (g : IsGood p)
    (ih : kprintf (format ps) (all_arguments ps) ≡ some (map put (all_shown ps))) where
  step_directive :
      kprintf (format (p ∷ ps)) (all_arguments (p ∷ ps)) ≡ some (map put (all_shown (p ∷ ps)))
  step_directive =
      rw (e, map-append)
        (kprintf-directive d (format ps) _ _ _ _ (convert_lem d p (all_arguments ps) e g) ih)

-- A format that is spelled from good pieces, with their arguments in order, prints what the pieces
-- show, in order, and nothing else.
pub kprintf-format :
    (ps : List Piece)
    → AllGood ps
    → kprintf (format ps) (all_arguments ps) ≡ some (map put (all_shown ps))
kprintf-format [] g = unfold kprintf in refl
kprintf-format (plain c ∷ ps) g = kprintf-plain c (format ps) _ _ g.0.1 (kprintf-format ps g.1)
kprintf-format (str s ∷ ps) g = step_directive (str s) ps b's' refl g.0 (kprintf-format ps g.1)
kprintf-format (dec n ∷ ps) g = step_directive (dec n) ps b'd' refl g.0 (kprintf-format ps g.1)
kprintf-format (int n ∷ ps) g = step_directive (int n) ps b'i' refl g.0 (kprintf-format ps g.1)
kprintf-format (hex n ∷ ps) g = step_directive (hex n) ps b'x' refl g.0 (kprintf-format ps g.1)
kprintf-format (upper_hex n ∷ ps) g =
    step_directive (upper_hex n) ps b'X' refl g.0 (kprintf-format ps g.1)
kprintf-format (chr n ∷ ps) g = step_directive (chr n) ps b'c' refl g.0 (kprintf-format ps g.1)
kprintf-format (percent ∷ ps) g = step_directive percent ps b'%' refl g.0 (kprintf-format ps g.1)
kprintf-format (other c ∷ ps) g = step_directive (other c) ps c refl g.0 (kprintf-format ps g.1)

kprintf-plain_none :
    (c : ℕ) (fmt : List ℕ) (args : List Arg)
    → c ≢ b'%'
    → kprintf fmt args ≡ none
    → kprintf (c ∷ fmt) args ≡ none
unfolding kprintf
kprintf-plain_none c [] args ne h = cc
kprintf-plain_none c (d ∷ fmt) args ne h = ground arith

step_none :
    (p : Piece) (d : ℕ) (fmt : List ℕ) (rest : List Arg)
    → spell p ≡ b'%' ∷ d ∷ []
    → IsGood p
    → kprintf fmt rest ≡ none
    → kprintf (spell p ++ fmt) (arguments p ++ rest) ≡ none
step_none p d fmt rest e g h = rw e (unfold kprintf in ground (arith, convert_lem d p rest e g))

-- A format of good pieces that ends in a lone '%' makes the loop step over its NUL and read on.
pub kprintf-lone_percent :
    (ps : List Piece) → AllGood ps → kprintf (format ps ++ (b'%' ∷ [])) (all_arguments ps) ≡ none
kprintf-lone_percent [] g = unfold kprintf in refl
kprintf-lone_percent (plain c ∷ ps) g = kprintf-plain_none c _ _ g.0.1 (kprintf-lone_percent ps g.1)
kprintf-lone_percent (str s ∷ ps) g =
    step_none (str s) b's' _ _ refl g.0 (kprintf-lone_percent ps g.1)
kprintf-lone_percent (dec n ∷ ps) g =
    step_none (dec n) b'd' _ _ refl g.0 (kprintf-lone_percent ps g.1)
kprintf-lone_percent (int n ∷ ps) g =
    step_none (int n) b'i' _ _ refl g.0 (kprintf-lone_percent ps g.1)
kprintf-lone_percent (hex n ∷ ps) g =
    step_none (hex n) b'x' _ _ refl g.0 (kprintf-lone_percent ps g.1)
kprintf-lone_percent (upper_hex n ∷ ps) g =
    step_none (upper_hex n) b'X' _ _ refl g.0 (kprintf-lone_percent ps g.1)
kprintf-lone_percent (chr n ∷ ps) g =
    step_none (chr n) b'c' _ _ refl g.0 (kprintf-lone_percent ps g.1)
kprintf-lone_percent (percent ∷ ps) g =
    step_none percent b'%' _ _ refl g.0 (kprintf-lone_percent ps g.1)
kprintf-lone_percent (other c ∷ ps) g =
    step_none (other c) c _ _ refl g.0 (kprintf-lone_percent ps g.1)
