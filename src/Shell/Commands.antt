-- ===== src/Shell/Commands.antt =====
-- The built-in commands: kernel/shell/builtin_commands.c and help_updated.c, but `hexdump`.
-- `none` is a write outside of an array.
pub mod Numbers
use larch.Prelude.{
  ℕ, zero, suc, ◌+◌, ◌*◌, ◌/◌, ◌%◌, ◌^◌, bit_and, Option, none, some, List, [], ◌∷◌, ◌++◌, ◌==◌,
  if◌then◌else◌, ◌>>=◌, codes, newline, replicate, set?,
}
use larch.Console.{Event, put, color, clear, writestring}
use larch.Printf.{fill_digits, drain_digits}

-- The loops that the commands share: the digits of `n` into an array of `size` bytes, the lowest
-- first, or a single '0'; then `while (i--) vga_putchar(buf[i]);`. Eleven rounds are enough for the ten
-- digits of a 32-bit word. What the array held before is never read.
pub print_number : ℕ → ℕ → Option (List Event)
print_number size n =
    (if n == 0
      then (set? (replicate size 0) 0 b'0' >>= λ buf. some (buf, 1))
      else fill_digits 11 n (replicate size 0) 0)
    >>= λ r. drain_digits r.1 r.0

pub cmd_ls : List Event
cmd_ls =
    writestring (codes "\ninitramfs files:\n")
    ++ (writestring (codes "  bin/hello\n") ++ writestring (codes "\n"))

pub cmd_echo : List ℕ → List Event
cmd_echo text = writestring (codes "\n") ++ (writestring text ++ writestring (codes "\n"))

pub cmd_mem : ℕ → ℕ → Option (List Event)
cmd_mem lower upper =
    let total = (lower + upper) % 2 ^ 32 in
    print_number 4 (total / (1024 * 1024)) >>= λ out. some (
      writestring (codes "\nMemory Information:\n")
      ++ (writestring (codes "  Total: ")
          ++ (out ++ (writestring (codes " MB\n") ++ writestring (codes "  Free: unknown yet\n")))))

-- The hours, minutes and seconds of a number of ticks.
pub uptime_parts : ℕ → ℕ × ℕ × ℕ
uptime_parts ticks =
    let seconds = ticks / 100 in
    let minutes = seconds / 60 in let hours = minutes / 60 in (hours, minutes % 60, seconds % 60)

pub cmd_uptime : ℕ → Option (List Event)
unfolding uptime_parts
cmd_uptime ticks =
    let t = uptime_parts ticks in
    print_number 4 t.0 >>= λ h. print_number 4 t.1 >>= λ m. print_number 4 t.2 >>= λ s. some (
      writestring (codes "\nUptime: ")
      ++ (h
          ++ (writestring (codes "h ")
              ++ (m ++ (writestring (codes "m ") ++ (s ++ writestring (codes "s\n")))))))

-- `__DATE__` and `__TIME__` are texts that the compiler puts in.
pub cmd_uname : List ℕ → List ℕ → List Event
cmd_uname build_date build_time =
    writestring (codes "\nLarch OS v1.0 (Larchwood)\n")
    ++ (writestring (codes "Kernel: Larch Kernel\n")
        ++ (writestring (codes "Arch: i686\n")
            ++ writestring
                (codes "Build: " ++ (build_date ++ (codes " " ++ (build_time ++ codes "\n"))))))

pub cmd_help : List Event
cmd_help =
    writestring (codes "\n")
    ++ ((color 0x0B 0x00 ∷ [])
        ++ (writestring (codes " Larch Commands \n")
            ++ ((color 0x0F 0x00 ∷ [])
                ++ (writestring (codes "\n")
                    ++ (writestring (codes "  help      - Show this help message\n")
                        ++ (writestring (codes "  clear     - Clear the screen\n")
                            ++ (writestring (codes "  reboot    - Reboot the system\n")
                                ++ (writestring (codes "  ls        - List files in initramfs\n")
                                    ++ (writestring (codes "  cat <file> - Display file contents\n")
                                        ++ (writestring
                                              (codes "  echo <text> - Print text to screen\n")
                                            ++ help_end))))))))))
  where
    help_end : List Event
    help_end =
        writestring (codes "  mem       - Show memory usage\n")
        ++ (writestring (codes "  uptime    - Show system uptime\n")
            ++ (writestring (codes "  uname     - Show OS information\n")
                ++ (writestring (codes "  hexdump <file> - Hex dump of file\n")
                    ++ (writestring (codes "  date      - Show current time from RTC\n")
                        ++ (writestring (codes "  top       - Show running processes\n")
                            ++ (writestring (codes "\n")
                                ++ ((color 0x0A 0x00 ∷ [])
                                    ++ (writestring
                                          (codes "Navigation: Up/Down arrows for command history\n")
                                        ++ (color 0x0F 0x00 ∷ [])))))))))

pub cmd_clear : List Event
cmd_clear = clear ∷ []

-- `reads` are the bytes that port 0x64 returns, in order; the result is the `outb` calls, after which
-- the command loops for ever. `none`: the controller stays busy as long as it is read.
pub cmd_reboot : List ℕ → Option (List (ℕ × ℕ))
cmd_reboot [] = none
cmd_reboot (good ∷ reads) =
    let rest = cmd_reboot reads in if bit_and good 0x02 == 0 then some ((0x64, 0xFE) ∷ []) else rest

pub cmd_top : ℕ → Option (List Event)
cmd_top ticks = print_number 12 ticks >>= λ out. some (
    writestring (codes "\n")
    ++ (writestring (codes "PID  STATE     TICKS\n")
        ++ (writestring (codes "---  -----     -----\n")
            ++ (writestring (codes "  1  RUNNING   ") ++ (out ++ writestring (codes "\n\n"))))))
