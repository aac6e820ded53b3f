-- ===== src/Shell/Process/Tests.antt =====
-- The line "ls", a shell with one command, and a letter in the older editor.
use larch.Prelude.{
  ℕ, ◌≡◌, refl, some, List, [], ◌∷◌, ◌++◌, arith, codes, newline, replicate, ◌⊎◌, AllPrintable,
}
use larch.Prelude.Int.{pos}
use larch.Libc.Strings.{strcmp}
use larch.Shell.History.{History}
use larch.Shell.History.Add.{IsValid, stored}
use larch.Shell.Commands.{cmd_ls}
use larch.Shell.Tokens.Words.{separates, words, words_from, first_word}
use larch.Shell.Process.{Env, choose, execute}
use larch.Shell.Editor.{Shell}
use larch.Shell.Older
use larch.Shell.Older.{OlderShell}
use larch.Shell.Older.Keys.{newer, forget, translated, shell_handle_key_lem}
use larch.Shell.Editor.Safe
use larch.Shell.Editor.Safe.{Succeeds}
use larch.Shell.Editor.Reach.{Stops, run_keys-IsValid}
use larch.Shell.Editor.Typing.{run_keys}

abbrev pub ls_line : List ℕ
ls_line = codes "ls"

abbrev pub machine : Env
machine = record {
  sys = record { fs_open = λ name. some 0; fs_read = λ file offset buf len. some (0, buf) };
  fuel = 10;
  ticks = 0;
  memory_lower = 0;
  memory_upper = 0;
  registers = λ reg. 0;
  build_date = [];
  build_time = [];
  cat_stack = replicate 256 0;
  hexdump_stack = replicate 16 0;
}

abbrev one_command : History
one_command = record {
  rows = codes "mem" ∷ replicate 19 [];
  history_count = 1;
  current_history_index = pos 1;
}

one_command-IsValid : IsValid one_command
one_command-IsValid = record {
  table = refl;
  count = omega arith;
  fit = ground arith;
  index = stored 1 (omega arith);
}

pub ls_line-words : words ls_line ≡ ls_line ∷ []
unfolding words_from separates first_word
ls_line-words = refl

pub ls_line-execute : execute machine (choose ls_line [] 1) ≡ some cmd_ls
unfolding execute choose strcmp
ls_line-execute = refl

pub ls_line-AllPrintable : AllPrintable ls_line
ls_line-AllPrintable = ground arith

abbrev pub fresh_shell : Shell
fresh_shell = record {
  input_buf = replicate 256 0;
  cmd_pos = 0;
  escape_sequence = 0;
  history = one_command;
}

pub fresh_shell-IsValid : Safe.IsValid fresh_shell
fresh_shell-IsValid = record { buffer = refl; cursor = omega arith; history = one_command-IsValid }

run_keys-IsValid_example :
    Succeeds (run_keys machine fresh_shell (ls_line ++ (newline ∷ [])))
    ⊎ Stops machine fresh_shell (ls_line ++ (newline ∷ []))
run_keys-IsValid_example =
    run_keys-IsValid machine fresh_shell (ls_line ++ (newline ∷ [])) fresh_shell-IsValid
      (omega arith)

abbrev older_shell : OlderShell
older_shell = record { input_buf = replicate 256 0; cmd_pos = 0; history = one_command }

shell_handle_key_lem_example :
    Older.shell_handle_key machine older_shell b'h'
    ≡ forget (translated machine (newer older_shell) b'h')
shell_handle_key_lem_example = shell_handle_key_lem machine older_shell b'h'
