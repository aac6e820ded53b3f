-- ===== src/Shell/Tokens.antt =====
-- `trim_newline` and `parse_command` of kernel/shell/shell_main.c (shell.c has the same text).
-- A command line is its bytes up to the NUL; the end of the list stands for that NUL. A pointer into
-- the line is the list of the bytes from it on, as the loop leaves them.
pub mod Words
pub mod Length
mod Tests
use larch.Prelude.{
  ℕ, zero, suc, ◌+◌, ◌-◌, Bool, true, false, not, ◌&&◌, ◌||◌, Option, none, some, List, [], ◌∷◌,
  ◌==◌, ltb, if◌then◌else◌, ◌>>=◌, get_or, set, length, newline,
}

abbrev pub max_args : ℕ
max_args = 16

-- `while (len > 0 && (str[len-1] == '\n' || str[len-1] == '\r')) { str[len-1] = 0; len--; }`
pub trim_from : ℕ → List ℕ → List ℕ
trim_from zero str = str
trim_from (suc len) str =
    let rest = trim_from len (set str len 0) in
    if (get_or str len 0 == newline) || (get_or str len 0 == b'\r') then rest else str

-- `while (str[len]) len++;` is the length of the line.
pub trim_newline : List ℕ → List ℕ
unfolding trim_from
trim_newline str = trim_from (length str) str

unfoldable pub is_blank : ℕ → Bool
is_blank c = (c == b' ') || (c == b'\t') || (c == newline)

-- What the loop leaves in the line, and the pointers that it stores.
pub record Parsed : Type 0 where
  pub line : List ℕ
  pub argv : List (List ℕ)

-- The loop at a pointer into the line, with the `argc` and `in_word` of that moment. A NUL that
-- `trim_newline` stored ends the loop.
pub parse_from : List ℕ → ℕ → Bool → Parsed
parse_from [] argc in_word = record { line = []; argv = [] }
parse_from (c ∷ s) argc in_word =
    let stop : Parsed = record { line = c ∷ s; argv = [] } in
    let blank : Parsed =
      (let r = parse_from s argc false in record { line = 0 ∷ r.line; argv = r.argv }) in
    let inside : Parsed =
      (let r = parse_from s argc true in record { line = c ∷ r.line; argv = r.argv }) in
    let start : Parsed =
      (let r = parse_from s (suc argc) true in
        record { line = c ∷ r.line; argv = (c ∷ r.line) ∷ r.argv }) in
    if (c == 0) || not (ltb argc max_args)
    then stop
    else (if is_blank c then blank else (if in_word then inside else start))

-- `argc` is the length of `argv`.
pub parse_command : List ℕ → Parsed
parse_command input = parse_from input 0 false
