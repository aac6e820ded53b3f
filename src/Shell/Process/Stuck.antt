-- ===== src/Shell/Process/Stuck.antt =====
-- The commands that have no result.
use larch.Prelude.{
  ℕ, ◌≤◌, ◌<◌, ◌≡◌, ◌≢◌, refl, ◌^◌, Option, none, some, List, ◌++◌, arith, ◌==◌, ◌>>=◌, ltb, inl,
  inr, Bool-cases, length, get_or,
}
use larch.Console.{Event}
use larch.Libc.Strings.{c_text}
use larch.Shell.Cat.{cmd_cat}
use larch.Shell.Hexdump.{cmd_hexdump}
use larch.Shell.Commands.Numbers.{cmd_mem_lem, cmd_uptime_lem, cmd_top_lem}
use larch.Shell.History.{History, history_add, max_cmd_len}
use larch.Shell.History.Add.{IsValid, history_add-Added}
use larch.Shell.Tokens.{trim_newline, parse_command}
use larch.Shell.Tokens.Length.{length-trim_newline}
use larch.Shell.Process.Keeps.{c_text-le}
use larch.Shell.Process.{
  Env, Processed, Command, help, clear, reboot, ls, cat, echo, mem, uptime, uname, hexdump, date,
  top, unknown, argument, choose, execute, shell_prompt, shell_process_command,
}

-- The commands without a result: `reboot`, `uptime` from 10000 hours on, whose hours have five digits
-- in a buffer of four, and a `cat` or `hexdump` whose reading of the file has none.
pub data Sticks (env : Env) : Command → Type 0 where
  sticks_reboot : Sticks env reboot
  sticks_uptime : 3_600_000_000 ≤ env.ticks → Sticks env uptime
  sticks_cat :
      (name : List ℕ) → cmd_cat env.sys env.fuel env.cat_stack name ≡ none → Sticks env (cat name)
  sticks_hexdump :
      (name : List ℕ)
      → cmd_hexdump env.sys env.fuel env.hexdump_stack name ≡ none
      → Sticks env (hexdump name)

some_result {ℓ} : {A : Type ℓ} {a : A} {r : Option A} → r ≡ some a → r ≢ none
some_result e f = cc

execute-Sticks :
    (env : Env) (c : Command) → env.ticks < 2 ^ 32 → execute env c ≡ none → Sticks env c
unfolding execute
execute-Sticks env help small e = cc
execute-Sticks env clear small e = cc
execute-Sticks env reboot small e = sticks_reboot
execute-Sticks env ls small e = cc
execute-Sticks env (cat name) small e = sticks_cat name e
execute-Sticks env (echo text) small e = cc
execute-Sticks env mem small e =
    absurd (some_result (cmd_mem_lem env.memory_lower env.memory_upper) e)
execute-Sticks env uptime small e = elim (Bool-cases (ltb env.ticks 3_600_000_000)) [
  | inl early ↦ absurd (some_result (cmd_uptime_lem env.ticks (ground arith)) e)
  | inr late ↦ sticks_uptime (ground arith)
]
execute-Sticks env uname small e = cc
execute-Sticks env (hexdump name) small e = sticks_hexdump name e
execute-Sticks env date small e = cc
execute-Sticks env top small e = absurd (some_result (cmd_top_lem env.ticks small) e)
execute-Sticks env (unknown name) small e = cc

-- The line is put into the history, and the command that its words choose is one without a result.
pub record IsStuck (env : Env) (h : History) (line : List ℕ) : Type 0 where
  pub added : History
  pub recorded : history_add h (c_text (trim_newline line)) ≡ some added
  pub sticks :
      let argv = (parse_command (trim_newline line)).argv in
      Sticks env (choose (argument argv 0) (argument argv 1) (length argv))

chosen_none :
    (chosen : Option (List Event)) (after : List Event → Processed)
    → (chosen >>= (λ out. some (after out))) ≡ none
    → chosen ≡ none
chosen_none none after e = refl
chosen_none (some out) after e = cc

-- On a line that fits a row a processing without a result is that of a command without one: neither the
-- history nor the split of the line into words leaves its array.
pub shell_process_command-IsStuck :
    (env : Env) (h : History) (line : List ℕ)
    → IsValid h
    → length line < max_cmd_len
    → env.ticks < 2 ^ 32
    → shell_process_command env h line ≡ none
    → IsStuck env h line
unfolding shell_process_command
shell_process_command-IsStuck env h line v short small e =
    let trimmed = trim_newline line in
    let parsed = parse_command trimmed in
    let added =
      history_add-Added h (c_text trimmed) v
        (omega (arith, c_text-le trimmed, length-trim_newline line)) in
    elim (Bool-cases (get_or trimmed 0 0 == 0)) [
      | inl blank ↦ absurd (some_result refl (rw blank at e))
      | inr more ↦ elim (Bool-cases (length parsed.argv == 0)) [
        | inl no_words ↦ absurd (some_result refl (rw (more, added.returns, ◌>>=◌, no_words) at e))
        | inr words ↦ record {
          added = added.history;
          recorded = added.returns;
          sticks = execute-Sticks env _ small (
              chosen_none _
                (λ out. record {
                  history = added.history;
                  line = parsed.line;
                  output = out ++ shell_prompt;
                })
                (rw (more, added.returns, ◌>>=◌, words) at e));
        }
      ]
    ]
