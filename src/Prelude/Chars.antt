-- ===== src/Prelude/Chars.antt =====
-- Characters and text literals as bytes.
use Prim.Native.Nat.{ℕ, ◌≤◌}
use Prim.Native.Char.{code}
use Prim.Native.String.{String}
use mathlib.Core.Logic.{◌≢◌}
use native.Mathlib.Omega.{arith}
use mathlib.Core.List.{List, [], ◌∷◌}

-- The bytes of an ASCII literal.
abbrev pub codes : String → List ℕ
codes String.[] = []
codes (String.◌∷◌ c s) = code c ∷ codes s

abbrev pub newline : ℕ
newline = 10

abbrev pub backspace : ℕ
backspace = 8

abbrev pub escape : ℕ
escape = 27

-- A text that a C string can hold: no byte is NUL.
abbrev pub IsText : List ℕ → Type 0
IsText [] = Unit {0}
IsText (c ∷ s) = (c ≢ 0) × IsText s

-- Every character is printable ASCII.
abbrev pub AllPrintable : List ℕ → Type 0
AllPrintable [] = Unit {0}
AllPrintable (c ∷ s) = ((32 ≤ c) × (c ≤ 126)) × AllPrintable s

pub AllPrintable-IsText : (t : List ℕ) → AllPrintable t → IsText t
AllPrintable-IsText [] p = ground arith
AllPrintable-IsText (c ∷ t) p = ground (arith, AllPrintable-IsText t p.1)
