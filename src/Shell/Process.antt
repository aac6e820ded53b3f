-- ===== src/Shell/Process.antt =====
-- `shell_process_command` of kernel/shell/shell_main.c and `shell_prompt` of colored_shell.c.
-- `none` is undefined behaviour, a command that runs out of fuel, or `reboot`, which does not return.
pub mod Dispatch
pub mod Keeps
pub mod Stuck
pub mod Tests
use larch.Prelude.{
  ℕ, zero, suc, Bool, true, false, ◌&&◌, Option, none, some, List, [], ◌∷◌, ◌++◌, map, ◌==◌, leb,
  if◌then◌else◌, ◌>>=◌, codes, length, get_or,
}
use larch.Prelude.Int.{ℤ, pos, negsuc}
use larch.Console.{Event, put, color, writestring}
use larch.Libc.Strings.{c_text, strcmp}
use larch.Fs.Interface.{FileSystem}
use larch.Drivers.Rtc.{cmd_date}
use larch.Shell.Cat.{cmd_cat}
use larch.Shell.Hexdump.{cmd_hexdump}
use larch.Shell.History.{History, history_add}
use larch.Shell.Tokens.{trim_newline, parse_command}
use larch.Shell.Commands.{
  cmd_help, cmd_clear, cmd_ls, cmd_echo, cmd_mem, cmd_uptime, cmd_uname, cmd_top,
}

-- What the commands read from outside of the shell: the file system, the tick counter, the memory
-- sizes, the clock chip, the build texts, and what lies in the uninitialised arrays.
pub record Env : Type 0 where
  pub sys : FileSystem
  pub fuel : ℕ
  pub ticks : ℕ
  pub memory_lower : ℕ
  pub memory_upper : ℕ
  pub registers : ℕ → ℕ
  pub build_date : List ℕ
  pub build_time : List ℕ
  pub cat_stack : List ℕ
  pub hexdump_stack : List ℕ

abbrev pub is_zero : ℤ → Bool
is_zero (pos zero) = true
is_zero (pos (suc n)) = false
is_zero (negsuc n) = false

-- The call that the chain of comparisons chooses.
pub data Command : Type 0 where
  help : Command
  clear : Command
  reboot : Command
  ls : Command
  cat : List ℕ → Command
  echo : List ℕ → Command
  mem : Command
  uptime : Command
  uname : Command
  hexdump : List ℕ → Command
  date : Command
  top : Command
  unknown : List ℕ → Command

-- `strcmp(argv[0], name) == 0`
abbrev pub is_name : List ℕ → List ℕ → Bool
is_name arg name = is_zero (strcmp arg name)

-- The chain of comparisons for `argv[0]`, `argv[1]` (the empty text when there is none) and `argc`.
unfoldable pub choose : (name arg : List ℕ) (argc : ℕ) → Command
choose name arg argc =
    if is_name name (codes "help")
    then help
    else (if is_name name (codes "clear")
        then clear
        else (if is_name name (codes "reboot")
            then reboot
            else (if is_name name (codes "ls")
                then ls
                else (if is_name name (codes "cat") && leb 2 argc
                    then cat arg
                    else (if is_name name (codes "echo")
                        then echo arg
                        else (if is_name name (codes "mem")
                            then mem
                            else (if is_name name (codes "uptime")
                                then uptime
                                else (if is_name name (codes "uname")
                                    then uname
                                    else (if is_name name (codes "hexdump") && leb 2 argc
                                        then hexdump arg
                                        else (if is_name name (codes "date")
                                            then date
                                            else (if is_name name (codes "top")
                                                then top
                                                else unknown name)))))))))))

pub shell_prompt : List Event
shell_prompt =
    (color 0x0C 0x00 ∷ [])
    ++ (writestring (codes "[")
        ++ ((color 0x0B 0x00 ∷ [])
            ++ (writestring (codes "larch")
                ++ ((color 0x0C 0x00 ∷ [])
                    ++ (writestring (codes "]")
                        ++ ((color 0x0A 0x00 ∷ [])
                            ++ (writestring (codes " $> ") ++ (color 0x0F 0x00 ∷ []))))))))

unfoldable pub execute : Env → Command → Option (List Event)
execute env help = some cmd_help
execute env clear = some cmd_clear
execute env reboot = none
execute env ls = some cmd_ls
execute env (cat name) = cmd_cat env.sys env.fuel env.cat_stack name
execute env (echo text) = some (cmd_echo text)
execute env mem = cmd_mem env.memory_lower env.memory_upper
execute env uptime = cmd_uptime env.ticks
execute env uname = some (cmd_uname env.build_date env.build_time)
execute env (hexdump name) = cmd_hexdump env.sys env.fuel env.hexdump_stack name
execute env date = some (cmd_date env.registers)
execute env top = cmd_top env.ticks
execute env (unknown name) = some (
    (color 0x0C 0x00 ∷ [])
    ++ (writestring (codes "Unknown command: ")
        ++ (writestring name ++ (writestring (codes "\n") ++ (color 0x0F 0x00 ∷ [])))))

-- What the call leaves: the history, the line with the NULs that were stored in it, the output.
pub record Processed : Type 0 where
  pub history : History
  pub line : List ℕ
  pub output : List Event

-- The text that an argument of the parsed line points to; the empty text behind the last one.
abbrev pub argument : List (List ℕ) → ℕ → List ℕ
argument argv i = c_text (get_or argv i [])

pub shell_process_command : Env → History → List ℕ → Option Processed
shell_process_command env h cmdline =
    let trimmed = trim_newline cmdline in
    let parsed = parse_command trimmed in
    let argc = length parsed.argv in
    let chosen = execute env (choose (argument parsed.argv 0) (argument parsed.argv 1) argc) in
    if get_or trimmed 0 0 == 0
    then some (record { history = h; line = trimmed; output = shell_prompt })
    else (history_add h (c_text trimmed) >>= (λ h1.
        if argc == 0
        then some (record { history = h1; line = parsed.line; output = shell_prompt })
        else (chosen >>= (λ out.
            some (record { history = h1; line = parsed.line; output = out ++ shell_prompt })))))
