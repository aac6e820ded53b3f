-- ===== src/Shell/Older.antt =====
-- kernel/shell/shell.c: the shell before shell_main.c. Its tokenizer and its `shell_process_command`
-- have the text of the newer ones and are those; its `shell_handle_key` knows no escape sequences.
pub mod Keys
use larch.Prelude.{
  ℕ, ◌+◌, ◌-◌, Bool, true, false, ◌&&◌, ◌||◌, Option, none, some, List, [], ◌∷◌, ◌++◌, ◌==◌, ltb,
  leb, if◌then◌else◌, ◌>>=◌, codes, newline, backspace, escape, length, get_or, set?, patch,
}
use larch.Console.{Event, put, color, writestring}
use larch.Libc.Strings.{c_text, strlen}
use larch.Shell.Tokens
use larch.Shell.Tokens.{Parsed}
use larch.Shell.History.{History, history_prev, history_next}
use larch.Shell.Process
use larch.Shell.Process.{Env, Processed, shell_prompt}
use larch.Shell.Editor.{copy_line, erase, max_command}

abbrev pub parse_command : List ℕ → Parsed
parse_command = Tokens.parse_command

abbrev pub trim_newline : List ℕ → List ℕ
trim_newline = Tokens.trim_newline

abbrev pub shell_process_command : Env → History → List ℕ → Option Processed
shell_process_command = Process.shell_process_command

-- The static variables of `shell_handle_key`, and the history.
pub record OlderShell : Type 0 where
  pub input_buf : List ℕ
  pub cmd_pos : ℕ
  pub history : History

-- `strcpy`, `cmd_pos = strlen(text)` and `vga_writestring(input_buf)`, after the typed text is erased.
pub replace_line : OlderShell → List ℕ → Option (OlderShell × List Event)
replace_line s text = copy_line s.input_buf text >>= (λ buf. some (
  record s { input_buf = buf; cmd_pos = strlen text },
  erase s.cmd_pos ++ writestring (c_text buf),
))

pub shell_handle_key : Env → OlderShell → ℕ → Option (OlderShell × List Event)
shell_handle_key env s key =
    let enter : Option (OlderShell × List Event) =
      (set? s.input_buf s.cmd_pos 0 >>= (λ buf.
        shell_process_command env s.history (c_text buf) >>= (λ r. some (
          record { input_buf = patch 0 r.line buf; cmd_pos = 0; history = r.history },
          put newline ∷ r.output,
        )))) in
    let previous : Option (OlderShell × List Event) =
      (history_prev s.history >>= (λ r.
        let s1 = record s { history = r.1 } in
        if get_or r.0 0 0 == 0 then some (s1, []) else replace_line s1 r.0)) in
    let next : Option (OlderShell × List Event) =
      (history_next s.history >>= (λ r.
        let s1 = record s { history = r.1 } in
        if get_or r.0 0 0 == 0
        then (set? s.input_buf 0 0
            >>= (λ buf. some (record s1 { input_buf = buf; cmd_pos = 0 }, erase s.cmd_pos)))
        else replace_line s1 r.0)) in
    let type_key : Option (OlderShell × List Event) =
      (set? s.input_buf s.cmd_pos key
        >>= (λ buf. some (record s { input_buf = buf; cmd_pos = s.cmd_pos + 1 }, put key ∷ []))) in
    if key == newline
    then enter
    else (if key == backspace
        then (if ltb 0 s.cmd_pos
            then some (record s { cmd_pos = s.cmd_pos - 1 }, put backspace ∷ [])
            else some (s, []))
        else (if key == escape
            then some (s, [])
            else (if (key == b'H') || (key == b'h')
                then previous
                else (if (key == b'P') || (key == b'p')
                    then next
                    else (if leb 32 key && leb key 126 && ltb s.cmd_pos (max_command - 1)
                        then type_key
                        else some (s, []))))))

pub shell_init : List Event
shell_init =
    (color 0x0F 0x00 ∷ [])
    ++ (writestring (codes "\nLarch OS Shell v1.0\n")
        ++ (writestring (codes "Type 'help' for available commands\n\n") ++ shell_prompt))
