-- ===== src/Shell/Editor.antt =====
-- `shell_handle_key` of kernel/shell/shell_main.c: the line editor behind the keyboard. A key is the
-- number of its `char`, and `none` is undefined behaviour, or a command that does not return.
pub mod Typing
pub mod Recall
pub mod Safe
pub mod Reach
use larch.Prelude.{
  ℕ, zero, suc, ◌+◌, ◌-◌, Bool, true, false, ◌&&◌, Option, none, some, List, [], ◌∷◌, ◌++◌, ◌==◌,
  ltb, leb, if◌then◌else◌, ◌>>=◌, codes, newline, backspace, escape, length, get_or, set?, patch,
}
use larch.Console.{Event, put, color, writestring}
use larch.Libc.Strings.{c_text, strlen}
use larch.Shell.History.{History, history_prev, history_next}
use larch.Shell.Process.{Env, Processed, shell_prompt, shell_process_command}

abbrev pub max_command : ℕ
max_command = 256

pub record Shell : Type 0 where
  pub input_buf : List ℕ
  pub cmd_pos : ℕ
  pub escape_sequence : ℕ
  pub history : History

-- The state after the call, and what the call writes.
abbrev pub Step : Type 0
Step = Option (Shell × List Event)

-- `for (i = 0; i < cmd_pos; i++)` a backspace, a space and a backspace.
unfoldable pub erase : ℕ → List Event
erase zero = []
erase (suc left) = put backspace ∷ put b' ' ∷ put backspace ∷ erase left

-- `strcpy(input_buf, text)`, of a text and its NUL.
unfoldable pub copy_line : List ℕ → List ℕ → Option (List ℕ)
copy_line buf text =
    if ltb (length text) (length buf) then some (patch 0 (text ++ (0 ∷ [])) buf) else none

-- `strcpy`, `cmd_pos = strlen(text)` and `vga_writestring(input_buf)`.
unfoldable pub recall : Shell → List ℕ → Option (Shell × List Event)
unfolding copy_line
recall s text = copy_line s.input_buf text >>= (λ buf.
    some (record s { input_buf = buf; cmd_pos = strlen text }, writestring (c_text buf)))

-- The last key of an arrow sequence, with `escape_sequence` already zero.
unfoldable pub arrow_key : Shell → ℕ → Step
unfolding recall
arrow_key s key =
    let up : Step =
      (history_prev s.history >>= (λ r.
        let s1 = record s { history = r.1 } in
        if get_or r.0 0 0 == 0
        then some (s1, [])
        else (recall s1 r.0 >>= (λ q. some (q.0, erase s.cmd_pos ++ q.1))))) in
    let down : Step =
      (history_next s.history >>= (λ r.
        let s1 = record s { history = r.1 } in
        if get_or r.0 0 0 == 0
        then (set? s.input_buf 0 0
            >>= (λ buf. some (record s1 { input_buf = buf; cmd_pos = 0 }, erase s.cmd_pos)))
        else (recall s1 r.0 >>= (λ q. some (q.0, erase s.cmd_pos ++ q.1))))) in
    if key == b'A' then up else (if key == b'B' then down else some (s, []))

-- `input_buf[cmd_pos] = 0;` and the command. It works on the buffer in place.
unfoldable pub enter_key : Env → Shell → Step
enter_key env s = set? s.input_buf s.cmd_pos 0 >>= (λ buf.
    shell_process_command env s.history (c_text buf) >>= (λ r. some (
      record {
        input_buf = patch 0 r.line buf;
        cmd_pos = 0;
        escape_sequence = 0;
        history = r.history;
      },
      put newline ∷ r.output,
    )))

-- A key outside of an escape sequence.
unfoldable pub plain_key : Env → Shell → ℕ → Step
unfolding enter_key
plain_key env s key =
    let type_key : Step =
      (set? s.input_buf s.cmd_pos key
        >>= (λ buf. some (record s { input_buf = buf; cmd_pos = s.cmd_pos + 1 }, put key ∷ []))) in
    if key == escape
    then some (record s { escape_sequence = 1 }, [])
    else (if key == newline
        then enter_key env s
        else (if key == backspace
            then (if ltb 0 s.cmd_pos
                then some (record s { cmd_pos = s.cmd_pos - 1 }, put backspace ∷ [])
                else some (s, []))
            else (if leb 32 key && leb key 126 && ltb s.cmd_pos (max_command - 1)
                then type_key
                else some (s, []))))

-- A `[` after the escape key goes on to the arrows; any other key is a plain one again.
pub shell_handle_key : Env → Shell → ℕ → Step
unfolding arrow_key plain_key
shell_handle_key env s key =
    let plain = plain_key env s key in
    let arrow = arrow_key (record s { escape_sequence = 0 }) key in
    let cancelled = plain_key env (record s { escape_sequence = 0 }) key in
    if s.escape_sequence == 1
    then (if key == b'[' then some (record s { escape_sequence = 2 }, []) else cancelled)
    else (if s.escape_sequence == 2 then arrow else plain)

pub shell_init : List Event
shell_init =
    (color 0x0F 0x00 ∷ [])
    ++ (writestring (codes "\nLarch OS Shell v1.0\n")
        ++ (writestring (codes "Type 'help' for available commands\n\n") ++ shell_prompt))
