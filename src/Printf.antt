-- ===== src/Printf.antt =====
-- kernel/printf/kprintf.c: numbers as digits, and the walk over a format.
-- `none` is undefined behaviour: an access outside of an array, an argument that is missing or of
-- the wrong type, a read past the end of the format, or a loop that runs out of fuel.
pub mod Init
pub mod Decimal
pub mod Hex
pub mod Format
mod Tests
use larch.Prelude.{
  ℕ, zero, suc, ◌+◌, ◌-◌, ◌*◌, ◌/◌, ◌%◌, ◌^◌, bit_and, true, false, Option, none, some, List, [],
  ◌∷◌, ◌++◌, ◌==◌, if◌then◌else◌, ◌>>=◌, codes, get_elem?, set?, replicate,
}
use larch.Console.{Event, put, writestring}

-- `while (num > 0) { buf[i++] = '0' + (num % 10); num /= 10; }`
unfoldable pub fill_digits : ℕ → ℕ → List ℕ → ℕ → Option (List ℕ × ℕ)
fill_digits zero num buf i = none
fill_digits (suc fuel) num buf i =
    let rest = set? buf i (b'0' + num % 10) >>= λ buf'. fill_digits fuel (num / 10) buf' (suc i) in
    if num == 0 then some (buf, i) else rest

-- `while (i > 0) vga_putchar(buf[--i]);`
unfoldable pub drain_digits : ℕ → List ℕ → Option (List Event)
drain_digits zero buf = some []
drain_digits (suc i) buf =
    get_elem? buf i >>= λ c. drain_digits i buf >>= λ rest. some (put c ∷ rest)

-- The array is not initialised; its bytes are read only where they were written.
pub print_dec : ℕ → Option (List Event)
print_dec num =
    if num == 0
    then some (put b'0' ∷ [])
    else fill_digits 11 num (replicate 12 0) 0 >>= λ r. drain_digits r.1 r.0

abbrev pub hex_table : List ℕ
hex_table = codes "0123456789ABCDEF"

-- `for (j = digits - 1; j >= 0; j--) buf[i++] = hex[(num >> (j * 4)) & 0xF];` from `j + 1` down.
pub fill_hex : ℕ → ℕ → List ℕ → ℕ → Option (List ℕ × ℕ)
fill_hex zero num buf i = some (buf, i)
fill_hex (suc j) num buf i = get_elem? hex_table (bit_and (num / 2 ^ (j * 4)) 0xF) >>= λ c.
    set? buf i c >>= λ buf'. fill_hex j num buf' (suc i)

-- The bytes of an array up to its first NUL; `none` if there is none in the array.
unfoldable pub c_string : List ℕ → Option (List ℕ)
c_string [] = none
c_string (c ∷ s) = let rest = c_string s >>= λ t. some (c ∷ t) in if c == 0 then some [] else rest

pub print_hex : ℕ → ℕ → Option (List Event)
print_hex num digits = fill_hex digits num (replicate 11 0) 0 >>= λ r.
    set? r.0 r.1 0 >>= λ buf. c_string buf >>= λ s. some (writestring s)

-- What the caller passes for `...`: a word, or a pointer to a text.
pub data Arg : Type 0 where
  word : ℕ → Arg
  text : List ℕ → Arg

pub next_word : List Arg → Option (ℕ × List Arg)
next_word [] = none
next_word (text s ∷ args) = none
next_word (word n ∷ args) = some (n, args)

pub next_text : List Arg → Option (List ℕ × List Arg)
next_text [] = none
next_text (word n ∷ args) = none
next_text (text s ∷ args) = some (s, args)

-- The `switch` on the character after a '%': the output, and the arguments that are left.
pub convert : ℕ → List Arg → Option (List Event × List Arg)
convert c args =
    if c == b's'
    then (next_text args >>= λ r. some (writestring r.0, r.1))
    else if c == b'd'
    then (next_word args >>= λ r. print_dec r.0 >>= λ out. some (out, r.1))
    else if c == b'i'
    then (next_word args >>= λ r. print_dec r.0 >>= λ out. some (out, r.1))
    else if c == b'x'
    then (next_word args >>= λ r. print_hex r.0 8 >>= λ out. some (out, r.1))
    else if c == b'X'
    then (next_word args >>= λ r. print_hex r.0 8 >>= λ out. some (out, r.1))
    else if c == b'c'
    then (next_word args >>= λ r. some (put (r.0 % 2 ^ 8) ∷ [], r.1))
    else if c == b'%'
    then some (put b'%' ∷ [], args)
    else some (put b'%' ∷ put c ∷ [], args)

-- The loop over the format. After a '%' at its end the loop steps over the NUL.
pub kprintf : List ℕ → List Arg → Option (List Event)
kprintf [] args = some []
kprintf (c ∷ []) args = if c == b'%' then none else some (put c ∷ [])
kprintf (c ∷ d ∷ fmt) args =
    let directive = convert d args >>= λ r. kprintf fmt r.1 >>= λ rest. some (r.0 ++ rest) in
    let plain = kprintf (d ∷ fmt) args >>= λ rest. some (put c ∷ rest) in
    if c == b'%' then directive else plain

pub printf_init : Option (List Event)
printf_init = kprintf (codes "[INFO] printf initialized\n") []
