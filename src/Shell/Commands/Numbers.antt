-- ===== src/Shell/Commands/Numbers.antt =====
-- The numbers that the commands print, and where their arrays are too small.
use larch.Prelude.{
  ℕ, zero, suc, ◌+◌, ◌*◌, ◌/◌, ◌%◌, ◌^◌, ◌≤◌, ◌<◌, ◌≡◌, refl, ◌≢◌, none, some, ◌++◌, map, arith,
  codes, replicate, length-replicate, ℕ_discrete, eq→==, ne→==,
}
use mathlib.Core.List.{map-append}
use larch.Console.{put, writestring}
use larch.Printf.{drain_digits}
use larch.Printf.Decimal.{decimal, fill-drain, fill_digits-overflow, length-low_digits_gt}
use larch.Shell.Commands.{print_number, cmd_mem, cmd_uptime, uptime_parts, cmd_top}

-- A number of at most `size` digits is printed as its numeral.
pub print_number-decimal :
    (size n : ℕ)
    → 0 < size
    → n < 10 ^ size
    → n < 10 ^ 10
    → print_number size n ≡ some (map put (decimal n))
unfolding print_number decimal drain_digits
print_number-decimal zero n h k w = absurd (omega arith)
print_number-decimal (suc size) n h k w = elim (ℕ_discrete n 0) [
  | yes z ↦ rw (eq→== n 0 z) refl
  | no nz ↦ rw (ne→== n 0 nz) (
      fill-drain n (suc size) (replicate (suc size) 0) w k
        (omega (arith, length-replicate {A = ℕ} (suc size) 0)))
]

-- A number with more digits than that writes past the array.
pub print_number-overflow :
    (size n : ℕ) → 10 ^ size ≤ n → n < 10 ^ 10 → n ≢ 0 → print_number size n ≡ none
unfolding print_number
print_number-overflow size n h w nz =
    rw
      (
        ne→== n 0 nz,
        fill_digits-overflow 10 n (replicate size 0) 0
            (omega (arith, length-replicate {A = ℕ} size 0, length-low_digits_gt size 10 n h w))
            (omega arith),
      )
      refl

-- `mem` always has room for its number: it prints the sum of the two sizes, modulo 2 ^ 32, in
-- megabytes.
pub cmd_mem_lem :
    (lower upper : ℕ)
    → cmd_mem lower upper
      ≡ some (
          writestring (
            codes "\nMemory Information:\n  Total: "
            ++ (decimal ((lower + upper) % 2 ^ 32 / 1048576)
                ++ codes " MB\n  Free: unknown yet\n")))
unfolding cmd_mem
cmd_mem_lem lower upper = simp (
  print_number-decimal 4 ((lower + upper) % 2 ^ 32 / (1024 * 1024)) (omega arith) (omega arith)
      (omega arith),
  map-append,
)

-- The parts of an uptime are in range and add up to the whole seconds.
pub uptime_parts_lem :
    (ticks : ℕ)
    → let (h, m, s) = uptime_parts ticks in
      (m < 60) × (s < 60) × (h * 3600 + m * 60 + s ≡ ticks / 100)
unfolding uptime_parts
uptime_parts_lem ticks = omega arith

-- Below 10000 hours `uptime` prints the numerals of the hours, minutes and seconds.
pub cmd_uptime_lem :
    (ticks : ℕ)
    → ticks < 3_600_000_000
    → let (h, m, s) = uptime_parts ticks in
      cmd_uptime ticks
      ≡ some (
          writestring (
            codes "\nUptime: "
            ++ (decimal h
                ++ (codes "h " ++ (decimal m ++ (codes "m " ++ (decimal s ++ codes "s\n")))))))
unfolding cmd_uptime
cmd_uptime_lem ticks h = simp (
  print_number-decimal 4 (ticks / 100 / 60 / 60) (omega arith) (omega arith) (omega arith),
  print_number-decimal 4 (ticks / 100 / 60 % 60) (omega arith) (omega arith) (omega arith),
  print_number-decimal 4 (ticks / 100 % 60) (omega arith) (omega arith) (omega arith),
  map-append,
)

-- `top` prints the tick counter of the one process that it shows.
pub cmd_top_lem :
    (ticks : ℕ)
    → ticks < 2 ^ 32
    → cmd_top ticks
      ≡ some (
          writestring (
            codes "\nPID  STATE     TICKS\n---  -----     -----\n  1  RUNNING   "
            ++ (decimal ticks ++ codes "\n\n")))
unfolding cmd_top
cmd_top_lem ticks h =
    simp (print_number-decimal 12 ticks (omega arith) (omega arith) (omega arith), map-append)

-- From 10000 hours on, which a 32-bit tick counter reaches, `uptime` writes past its array of four
-- bytes.
pub cmd_uptime-overflow :
    (ticks : ℕ) → 3_600_000_000 ≤ ticks → ticks < 2 ^ 32 → cmd_uptime ticks ≡ none
unfolding cmd_uptime
cmd_uptime-overflow ticks h k =
    rw (print_number-overflow 4 (ticks / 100 / 60 / 60) (omega arith) (omega arith) (omega arith))
      refl
