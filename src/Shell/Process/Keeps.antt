-- ===== src/Shell/Process/Keeps.antt =====
-- What a command leaves behind: the history is valid and the line has its length.
use larch.Prelude.{
  ℕ, ◌≤◌, ◌<◌, ◌≡◌, ◌∙◌, subst, Option, none, some, List, [], ◌∷◌, ◌++◌, arith, ◌==◌, ◌>>=◌, inl,
  inr, Bool-cases, length, get_or,
}
use larch.Console.{Event}
use larch.Libc.Strings.{c_text}
use larch.Shell.History.{History, max_cmd_len}
use larch.Shell.History.Add.{IsValid, history_add-Added}
use larch.Shell.Tokens.{trim_newline, parse_command}
use larch.Shell.Tokens.Length.{length-trim_newline, length-parse_command}
use larch.Shell.Process.{
  Env, Processed, argument, choose, execute, shell_prompt, shell_process_command,
}

pub record Keeps (line : List ℕ) (r : Processed) : Type 0 where
  pub valid : IsValid r.history
  pub same_length : length r.line ≡ length line

pub c_text-le : (s : List ℕ) → length (c_text s) ≤ length s
unfolding c_text
c_text-le [] = omega arith
c_text-le (c ∷ s) = ground (arith, c_text-le s)

result-Keeps :
    {line : List ℕ} (p : Processed) {r : Processed}
    → some p ≡ some r
    → IsValid p.history
    → length p.line ≡ length line
    → Keeps line r
result-Keeps {line} p {r} e v size =
    let same : p ≡ r = cc in subst (Keeps line) same (record { valid = v; same_length = size })

-- The result of a chosen command that returned.
finished :
    (line : List ℕ) (h : History) (left : List ℕ) (chosen : Option (List Event)) {r : Processed}
    → IsValid h
    → length left ≡ length line
    → (chosen >>= (λ out. some (record { history = h; line = left; output = out ++ shell_prompt })))
      ≡ some r
    → Keeps line r
finished line h left none v size e = cc
finished line h left (some out) v size e =
    result-Keeps (record { history = h; line = left; output = out ++ shell_prompt }) e v size

-- From a valid history, on a line that fits a row, a command that returns leaves a valid history and a
-- line of the same length.
pub shell_process_command-Keeps :
    (env : Env) (h : History) (line : List ℕ) {r : Processed}
    → IsValid h
    → length line < max_cmd_len
    → shell_process_command env h line ≡ some r
    → Keeps line r
unfolding shell_process_command
shell_process_command-Keeps env h line {r = r} v short e =
    let trimmed = trim_newline line in
    let parsed = parse_command trimmed in
    let size : length parsed.line ≡ length line =
      length-parse_command trimmed ∙ length-trim_newline line in
    let added =
      history_add-Added h (c_text trimmed) v
        (omega (arith, c_text-le trimmed, length-trim_newline line)) in
    elim (Bool-cases (get_or trimmed 0 0 == 0)) [
      | inl blank ↦
          result-Keeps (record { history = h; line = trimmed; output = shell_prompt })
            (rw blank at e) v (length-trim_newline line)
      | inr more ↦ elim (Bool-cases (length parsed.argv == 0)) [
        | inl no_words ↦
            result-Keeps
              (record { history = added.history; line = parsed.line; output = shell_prompt })
              (rw (more, added.returns, ◌>>=◌, no_words) at e) added.valid size
        | inr words ↦
            finished line added.history parsed.line
              (execute env
                (choose (argument parsed.argv 0) (argument parsed.argv 1) (length parsed.argv)))
              added.valid size (rw (more, added.returns, ◌>>=◌, words) at e)
      ]
    ]
