-- ===== src/Shell/Tokens/Length.antt =====
-- The tokenizer stores NULs into the line and does not change its length.
use larch.Prelude.{
  ℕ, zero, suc, ◌≡◌, refl, Bool, true, false, List, [], ◌∷◌, arith, length, length-set, set,
}
use larch.Shell.Tokens.{trim_from, trim_newline, parse_from, parse_command}

length-trim_from : (len : ℕ) (str : List ℕ) → length (trim_from len str) ≡ length str
unfolding trim_from
length-trim_from zero str = refl
length-trim_from (suc len) str =
    ground (arith, length-trim_from len (set str len 0), length-set str len 0)

pub length-trim_newline : (str : List ℕ) → length (trim_newline str) ≡ length str
unfolding trim_newline
length-trim_newline str = length-trim_from (length str) str

length-parse_from :
    (s : List ℕ) (argc : ℕ) (in_word : Bool) → length (parse_from s argc in_word).line ≡ length s
unfolding parse_from
length-parse_from [] argc in_word = refl
length-parse_from (c ∷ s) argc true =
    ground (arith, length-parse_from s argc false, length-parse_from s argc true)
length-parse_from (c ∷ s) argc false =
    ground (arith, length-parse_from s argc false, length-parse_from s (suc argc) true)

pub length-parse_command : (s : List ℕ) → length (parse_command s).line ≡ length s
unfolding parse_command
length-parse_command s = length-parse_from s 0 false
