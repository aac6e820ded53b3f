-- ===== src/Shell/Tokens/Words.antt =====
-- The arguments are the words of the line.
use larch.Prelude.{
  ℕ, zero, suc, ◌+◌, ◌≤◌, ◌<◌, ◌≡◌, refl, Bool, true, false, ◌||◌, List, [], ◌∷◌, map, arith, ◌==◌,
  leb, if◌then◌else◌, length, IsText, AllPrintable, get_or, newline,
}
use larch.Libc.Strings.{c_text}
use larch.Shell.Tokens.{is_blank, parse_from, parse_command, trim_newline, trim_from, max_args}

-- What separates words: a blank, a tabulator or a line break.
unfoldable pub separates : ℕ → Bool
separates c = if leb c 10 then leb 9 c else c == 32

is_blank-separates : (c : ℕ) → is_blank c ≡ separates c
unfolding is_blank separates
is_blank-separates c = ground arith

-- The rest of the word that a line begins with, and the words after it.
unfoldable pub first_word : List ℕ → List ℕ
first_word [] = []
first_word (c ∷ s) = let rest = c ∷ first_word s in if separates c then [] else rest

-- The words of a line; `true` when a word is being read.
unfoldable pub words_from : Bool → List ℕ → List (List ℕ)
words_from inside [] = []
words_from inside (c ∷ s) =
    if separates c
    then words_from false s
    else (if inside then words_from true s else (c ∷ first_word s) ∷ words_from true s)

abbrev pub words : List ℕ → List (List ℕ)
words s = words_from false s

-- With room for its words, the loop cuts the line into them.
parse_from_lem :
    (s : List ℕ) (argc : ℕ) (inside : Bool)
    → IsText s
    → argc + length (words_from inside s) < max_args
    → (c_text (parse_from s argc inside).line ≡ first_word s)
      × (map c_text (parse_from s argc inside).argv ≡ words_from inside s)
unfolding parse_from first_word words_from c_text
parse_from_lem [] argc inside t h = (refl, refl)
parse_from_lem (c ∷ s) argc true t h =
    rw (is_blank-separates c)
      (ground (arith, parse_from_lem s argc false t.1, parse_from_lem s argc true t.1))
parse_from_lem (c ∷ s) argc false t h =
    rw (is_blank-separates c)
      (ground (arith, parse_from_lem s argc false t.1, parse_from_lem s (suc argc) true t.1))

-- A line without NULs of fewer than 16 words is cut into exactly its words, in order: `argv[i]` is
-- the text of the i-th word.
pub parse_command-words :
    (s : List ℕ)
    → IsText s
    → length (words s) < max_args
    → map c_text (parse_command s).argv ≡ words s
unfolding parse_command
parse_command-words s t h = (parse_from_lem s 0 false t (omega arith)).1

-- More than the sixteenth word is lost: there are never more than 16 arguments.
pub parse_from_bound :
    (s : List ℕ) (argc : ℕ) (inside : Bool)
    → argc ≤ max_args
    → argc + length (parse_from s argc inside).argv ≤ max_args
unfolding parse_from
parse_from_bound [] argc inside h = omega arith
parse_from_bound (c ∷ s) argc true h =
    ground (arith, parse_from_bound s argc false, parse_from_bound s argc true)
parse_from_bound (c ∷ s) argc false h =
    ground (arith, parse_from_bound s argc false, parse_from_bound s (suc argc) true)

-- `parse_command` never stores more than the 16 pointers that `argv` holds, whatever the line is.
pub parse_command_bound : (s : List ℕ) → length (parse_command s).argv ≤ max_args
unfolding parse_command
parse_command_bound s = omega (arith, parse_from_bound s 0 false (omega arith))

printable-kept :
    (s : List ℕ) (i : ℕ)
    → AllPrintable s
    → (get_or s i 0 == newline) || (get_or s i 0 == b'\r') ≡ false
printable-kept [] i p = ground arith
printable-kept (c ∷ s) zero p = ground arith
printable-kept (c ∷ s) (suc i) p = printable-kept s i p.1

trim_from-printable : (len : ℕ) (s : List ℕ) → AllPrintable s → trim_from len s ≡ s
unfolding trim_from
trim_from-printable zero s p = refl
trim_from-printable (suc len) s p = rw (printable-kept s len p) refl

-- There is nothing to trim off a line of printable characters.
pub trim_newline-printable : (s : List ℕ) → AllPrintable s → trim_newline s ≡ s
unfolding trim_newline
trim_newline-printable s p = trim_from-printable (length s) s p
