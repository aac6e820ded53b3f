-- ===== src/Shell/Session.antt =====
-- A session at the shell: the keys of a command line, through the line editor, the tokenizer, the dispatch
-- and the display to the screen.
pub mod Words
pub mod Cat
pub mod Unknown
mod Tests
use larch.Prelude.{
  ℕ, ◌+◌, ◌<◌, ◌≡◌, refl, ap, ◌∙◌, some, List, [], ◌∷◌, ◌++◌, map, arith, length, get_or, newline,
  AllPrintable, patch,
}
use larch.Console.{Event, put}
use larch.Drivers.Vga.{Vga, run}
use larch.Drivers.Vga.Screen
use larch.Drivers.Vga.Screen.{view}
use larch.Drivers.Vga.Session.{play, Reaches, run-Reaches}
use larch.Shell.Tokens.{max_args}
use larch.Shell.Tokens.Words.{words}
use larch.Shell.History.Add.{entries, last_twenty, history_add-Added}
use larch.Shell.Process.{Env, choose, execute, shell_prompt}
use larch.Shell.Process.Dispatch.{shell_process_command-words}
use larch.Shell.Editor.{Shell}
use larch.Shell.Editor.Safe.{IsValid}
use larch.Shell.Editor.Typing.{run_keys, run_keys-line}

-- What the screen is sent: the echo of the line, the output of the command, and the prompt.
abbrev pub answered : (line : List ℕ) (out : List Event) → List Event
answered line out = map put line ++ (put newline ∷ (out ++ shell_prompt))

-- The keys are handled to their end: the output is sent to the screen, which shows it as a terminal does;
-- the line is the newest command of the history, and the next line starts empty.
pub record CommandShown (env : Env) (s : Shell) (v : Vga) (line : List ℕ) (out : List Event)
    : Type 0 where
  pub next : Shell
  pub returns : run_keys env s (line ++ (newline ∷ [])) ≡ some (next, answered line out)
  pub empty : next.cmd_pos ≡ 0
  pub remembered : entries next.history ≡ last_twenty (entries s.history ++ (line ∷ []))
  pub screen : Reaches (play (view v) (answered line out)) (run v (answered line out))

-- The shell waits for a line, on a valid screen.
pub record Waits (s : Shell) (v : Vga) : Type 0 where
  pub shell : IsValid s
  pub plain : s.escape_sequence ≡ 0
  pub empty : s.cmd_pos ≡ 0
  pub screen : Screen.IsValid v

-- Typing a line of at most 255 printable characters and Enter at a shell that waits for one, with a word
-- `w` first and fewer than sixteen words, echoes the line and prints the output of the command
-- that `w`, the second word and the number of words choose, if that command returns, and then the
-- prompt; the screen stays valid and shows all of it as a terminal does; the line is added to the
-- history, and the next line starts empty.
pub run_keys-command :
    (env : Env) (s : Shell) (v : Vga) (line w : List ℕ) (ws : List (List ℕ)) (out : List Event)
    → Waits s v
    → AllPrintable line
    → length line < 256
    → words line ≡ w ∷ ws
    → length (w ∷ ws) < max_args
    → execute env (choose w (get_or ws 0 []) (length (w ∷ ws))) ≡ some out
    → CommandShown env s v line out
run_keys-command env s v line w ws out h text short split few runs =
    let added = history_add-Added s.history line h.shell.history (omega arith) in
    let processed =
      shell_process_command-words env s.history added.history line w ws out text split few
        added.returns runs in
    let (r, returns, kept, output) = processed in
    let keys =
      run_keys-line env s line r h.plain h.empty h.shell.buffer (omega arith) text returns in
    let next : Shell = record {
      input_buf = patch 0 r.line (patch 0 (line ++ (0 ∷ [])) s.input_buf);
      cmd_pos = 0;
      escape_sequence = 0;
      history = r.history;
    } in
    record {
      next = next;
      returns = keys ∙ ap (λ o. some (next, map put line ++ (put newline ∷ o))) output;
      empty = refl;
      remembered = ap entries kept ∙ added.same;
      screen = run-Reaches _ v h.screen;
    }
