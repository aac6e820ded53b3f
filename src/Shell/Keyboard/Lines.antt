-- ===== src/Shell/Keyboard/Lines.antt =====
-- Typing a line at the keyboard.
use larch.Prelude.{
  ℕ, ◌+◌, ◌≤◌, ◌<◌, ◌⊎◌, ◌-◌, ◌==◌, get_or, codes, Option, some, List, [], ◌∷◌, leb, if◌then◌else◌,
  ◌>>=◌, length, patch,
}
use larch.Console.{Event}
use larch.Shell.History.{History}
use larch.Shell.Keyboard.{Line, Outcome, prefix}

-- The keys of a keyboard by their place: in each of its rows the codes count from the left. 0 for a key
-- with no character.
unfoldable pub key_at : ℕ → ℕ
key_at code =
    if code == 57
    then b' '
    else if leb 44 code
    then get_or (codes "zxcvbnm") (code - 44) 0
    else if leb 30 code
    then get_or (codes "asdfghjkl") (code - 30) 0
    else if leb 16 code
    then get_or (codes "qwertyuiop") (code - 16) 0
    else if leb 2 code
    then get_or (codes "1234567890") (code - 2) 0
    else 0

-- A code of a key that is let go, or one of a key with a printable character.
abbrev pub IsKey : ℕ → Type 0
IsKey code = (0x80 ≤ code) ⊎ ((code < 0x80) × (32 ≤ key_at code) × (key_at code ≤ 126))

abbrev pub AllKeys : List ℕ → Type 0
AllKeys [] = Unit {0}
AllKeys (code ∷ codes) = IsKey code × AllKeys codes

-- The characters of the keys that are pressed.
unfoldable pub text_of : List ℕ → List ℕ
text_of [] = []
text_of (code ∷ codes) =
    let rest = text_of codes in if leb 0x80 code then rest else key_at code ∷ rest

abbrev prefixed : List Event → Option Outcome → Option Outcome
prefixed out r = r >>= (λ q. some (prefix out q))

abbrev typed : Line → List ℕ → Line
typed s t = record s { buf = patch s.pos t s.buf; pos = s.pos + length t }
