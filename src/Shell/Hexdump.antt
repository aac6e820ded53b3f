-- ===== src/Shell/Hexdump.antt =====
-- `cmd_hexdump` of kernel/shell/builtin_commands.c. `none` is an access outside of an array, or a loop
-- that runs out of fuel.
pub mod Output
pub mod Loop
pub mod Stored
mod Tests
use larch.Prelude.{
  ℕ, zero, suc, ◌+◌, ◌/◌, ◌%◌, ◌^◌, true, false, Option, none, some, List, [], ◌∷◌, ◌++◌, ◌==◌,
  ◌>>=◌, ltb, leb, ◌&&◌, if◌then◌else◌, codes, newline, get_elem?, bit_and,
}
use larch.Console.{Event, put, writestring}
use larch.Fs.Interface.{FileSystem}

abbrev pub hex : List ℕ
hex = codes "0123456789ABCDEF"

-- One column: two digits, or two spaces behind the end.
pub dump_column : (bytes i : ℕ) → List ℕ → Option (List Event)
dump_column bytes i buf =
    if ltb i bytes
    then (get_elem? buf i >>= (λ b. get_elem? hex (bit_and (b / 2 ^ 4) 0xF) >>= (λ high.
        get_elem? hex (bit_and b 0xF) >>= (λ low. some (put high ∷ put low ∷ put b' ' ∷ [])))))
    else some (put b' ' ∷ put b' ' ∷ put b' ' ∷ [])

-- The two loops over the columns, with `left` rounds left at `i`.
pub columns_from : (left i bytes : ℕ) → List ℕ → Option (List Event)
columns_from zero i bytes buf = some []
columns_from (suc left) i bytes buf =
    let rest = columns_from left (suc i) bytes buf in
    dump_column bytes i buf >>= (λ out. rest >>= (λ more. some (out ++ more)))

pub shown_char : ℕ → ℕ
shown_char c = if leb 32 c && leb c 126 then c else b'.'

-- The loop over the characters.
pub chars_from : (left i : ℕ) → List ℕ → Option (List Event)
chars_from zero i buf = some []
chars_from (suc left) i buf =
    let rest = chars_from left (suc i) buf in
    get_elem? buf i >>= (λ c. rest >>= (λ more. some (put (shown_char c) ∷ more)))

-- The body of the while loop.
pub dump_line : ℕ → List ℕ → Option (List Event)
unfolding columns_from chars_from
dump_line bytes buf = columns_from 8 0 bytes buf >>= (λ low. columns_from 8 8 bytes buf >>= (λ high.
    chars_from bytes 0 buf >>= (λ text. some (
      low
      ++ ((put b' ' ∷ []) ++ (high ++ ((put b'|' ∷ []) ++ (text ++ writestring (codes "|\n")))))))))

module _ (sys : FileSystem) where
  pub hexdump_loop : (fuel file offset : ℕ) → List ℕ → Option (List Event)
  hexdump_loop zero file offset buf = none
  hexdump_loop (suc fuel) file offset buf = sys.fs_read file offset buf 16 >>= λ r.
      elim (r.0 == 0) [
        | true ↦ some []
        | false ↦ dump_line r.0 r.1 >>= λ out.
            hexdump_loop fuel file ((offset + r.0) % 2 ^ 32) r.1 >>= λ rest. some (out ++ rest)
      ]

  -- `buf` is what the stack holds in the uninitialised array.
  pub cmd_hexdump : (fuel : ℕ) → List ℕ → List ℕ → Option (List Event)
  cmd_hexdump fuel buf filename = sys.fs_open filename >>= λ file. elim (file == 0) [
    | true ↦ some (writestring (codes "File not found\n"))
    | false ↦ hexdump_loop fuel file 0 buf >>= λ out. some (writestring (newline ∷ []) ++ out)
  ]
