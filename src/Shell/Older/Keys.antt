-- ===== src/Shell/Older/Keys.antt =====
-- How the two editors differ: the letters `h` and `p`.
use larch.Prelude.{
  ℕ, ◌≡◌, refl, sym, subst, true, false, ◌&&◌, ◌||◌, Option, none, some, List, [], ◌++◌, arith,
  ◌==◌, ltb, leb, if◌then◌else◌, ◌>>=◌, newline, backspace, escape, get_or, set?, Bool-cases,
  Option-cases, inl, inr,
}
use larch.Console.{Event, writestring}
use larch.Libc.Strings.{c_text, strlen}
use larch.Shell.History.{history_prev, history_next}
use larch.Shell.Process.{Env, Processed}
use larch.Shell.Process
use larch.Shell.Editor.{Shell, Step, copy_line, erase, recall, arrow_key, enter_key, plain_key}
use larch.Shell.Older.{OlderShell, replace_line, shell_handle_key}

-- The newer editor in the same state, outside of an escape sequence, and back.
pub newer : OlderShell → Shell
newer s = record {
  input_buf = s.input_buf;
  cmd_pos = s.cmd_pos;
  escape_sequence = 0;
  history = s.history;
}

pub forget : Step → Option (OlderShell × List Event)
forget r = r >>= (λ q.
    some (record { input_buf = q.0.input_buf; cmd_pos = q.0.cmd_pos; history = q.0.history }, q.1))

-- What the newer editor does with the key that the older one takes it for: `h` and `H` for the last
-- key of the up arrow, `p` and `P` for that of the down arrow, any other key for itself.
pub translated : Env → Shell → ℕ → Step
translated env s key =
    if (key == b'H') || (key == b'h')
    then arrow_key s b'A'
    else (if (key == b'P') || (key == b'p') then arrow_key s b'B' else plain_key env s key)

copied :
    (s : OlderShell) (text : List ℕ) (buf : Option (List ℕ))
    → let recalled : Step =
        (buf >>= (λ b.
          some
            (record (newer s) { input_buf = b; cmd_pos = strlen text }, writestring (c_text b)))) in
      let replaced : Option (OlderShell × List Event) =
        (buf >>= (λ b. some (
          record s { input_buf = b; cmd_pos = strlen text },
          erase s.cmd_pos ++ writestring (c_text b),
        ))) in
      forget (recalled >>= (λ q. some (q.0, erase s.cmd_pos ++ q.1))) ≡ replaced
unfolding newer forget
copied s text none = refl
copied s text (some b) = refl

forget-recall :
    (s : OlderShell) (text : List ℕ)
    → forget (recall (newer s) text >>= (λ q. some (q.0, erase s.cmd_pos ++ q.1)))
      ≡ replace_line s text
unfolding forget newer recall replace_line
forget-recall s text = copied s text (copy_line s.input_buf text)

-- The two arrows, on what the history answers.
forget-up :
    (s : OlderShell)
    → forget (arrow_key (newer s) b'A') ≡ (
        history_prev s.history >>= (λ r.
          let s1 = record s { history = r.1 } in
          if get_or r.0 0 0 == 0 then some (s1, []) else replace_line s1 r.0))
unfolding arrow_key newer forget
forget-up s = elim (Option-cases (history_prev s.history)) [
  | inl e ↦ rw e refl
  | inr e ↦ elim (Bool-cases (get_or e.0.0 0 0 == 0)) [
    | inl empty ↦ rw (e.1, ◌>>=◌, empty) refl
    | inr text ↦ rw (e.1, ◌>>=◌, text) (forget-recall (record s { history = e.0.1 }) e.0.0)
  ]
]

forget-down :
    (s : OlderShell)
    → forget (arrow_key (newer s) b'B') ≡ (
        history_next s.history >>= (λ r.
          let s1 = record s { history = r.1 } in
          if get_or r.0 0 0 == 0
          then (set? s.input_buf 0 0
              >>= (λ buf. some (record s1 { input_buf = buf; cmd_pos = 0 }, erase s.cmd_pos)))
          else replace_line s1 r.0))
unfolding arrow_key newer forget
forget-down s = elim (Option-cases (history_next s.history)) [
  | inl e ↦ rw e refl
  | inr e ↦ elim (Bool-cases (get_or e.0.0 0 0 == 0)) [
    | inl empty ↦ elim (Option-cases (set? s.input_buf 0 0)) [
      | inl f ↦ rw (e.1, ◌>>=◌, empty, f) refl
      | inr f ↦ rw (e.1, ◌>>=◌, empty, f.1) refl
    ]
    | inr text ↦ rw (e.1, ◌>>=◌, text) (forget-recall (record s { history = e.0.1 }) e.0.0)
  ]
]

forget-enter :
    (env : Env) (s : OlderShell) → forget (enter_key env (newer s)) ≡ shell_handle_key env s newline
unfolding enter_key newer forget shell_handle_key
forget-enter env s = elim (Option-cases (set? s.input_buf s.cmd_pos 0)) [
  | inl e ↦ rw e refl
  | inr e ↦ elim (Option-cases (Process.shell_process_command env s.history (c_text e.0))) [
    | inl f ↦ rw (e.1, ◌>>=◌, f) refl
    | inr f ↦ rw (e.1, ◌>>=◌, f.1) refl
  ]
]

-- A key that is none of the four letters.
same_key :
    (env : Env) (s : OlderShell) (key : ℕ)
    → ((key == b'H') || (key == b'h')) ≡ false
    → ((key == b'P') || (key == b'p')) ≡ false
    → shell_handle_key env s key ≡ forget (plain_key env (newer s) key)
unfolding shell_handle_key plain_key newer forget
same_key env s key up down = elim (Bool-cases (key == newline)) [
  | inl enter ↦
      let is_newline : key ≡ newline = ground arith in
      subst (λ k. shell_handle_key env s k ≡ forget (plain_key env (newer s) k)) (sym is_newline)
        (sym (forget-enter env s))
  | inr line ↦ elim (Bool-cases (key == escape)) [
    | inl begins ↦
        let not_back : (key == backspace) ≡ false = ground arith in rw (line, not_back, begins) refl
    | inr char ↦ elim (Bool-cases (key == backspace)) [
      | inl back ↦ elim (Bool-cases (ltb 0 s.cmd_pos)) [
        | inl more ↦ rw (line, back, char, more) refl
        | inr start ↦ rw (line, back, char, start) refl
      ]
      | inr other ↦ elim (Bool-cases (leb 32 key && leb key 126 && ltb s.cmd_pos 255)) [
        | inl taken ↦ elim (Option-cases (set? s.input_buf s.cmd_pos key)) [
          | inl f ↦ rw (line, other, char, up, down, taken, f) refl
          | inr f ↦ rw (line, other, char, up, down, taken, f.1) refl
        ]
        | inr ignored ↦ rw (line, other, char, up, down, ignored) refl
      ]
    ]
  ]
]

up_key :
    (env : Env) (s : OlderShell) (key : ℕ)
    → ((key == b'H') || (key == b'h')) ≡ true
    → shell_handle_key env s key ≡ forget (arrow_key (newer s) b'A')
unfolding shell_handle_key
up_key env s key h =
    let line : (key == newline) ≡ false = ground arith in
    let back : (key == backspace) ≡ false = ground arith in
    let begins : (key == escape) ≡ false = ground arith in
    rw (line, back, begins, h) (sym (forget-up s))

down_key :
    (env : Env) (s : OlderShell) (key : ℕ)
    → ((key == b'P') || (key == b'p')) ≡ true
    → shell_handle_key env s key ≡ forget (arrow_key (newer s) b'B')
unfolding shell_handle_key
down_key env s key h =
    let line : (key == newline) ≡ false = ground arith in
    let back : (key == backspace) ≡ false = ground arith in
    let begins : (key == escape) ≡ false = ground arith in
    let up : ((key == b'H') || (key == b'h')) ≡ false = ground arith in
    rw (line, back, begins, up, h) (sym (forget-down s))

-- The older editor does with every key what the newer one does outside of an escape sequence, but for
-- four letters: `h` and `H` are the up arrow to it and `p` and `P` the down arrow, so it can never take
-- one of them into a line.
pub shell_handle_key_lem :
    (env : Env) (s : OlderShell) (key : ℕ)
    → shell_handle_key env s key ≡ forget (translated env (newer s) key)
unfolding translated
shell_handle_key_lem env s key = elim (Bool-cases ((key == b'H') || (key == b'h'))) [
  | inl up ↦ rw up (up_key env s key up)
  | inr not_up ↦ elim (Bool-cases ((key == b'P') || (key == b'p'))) [
    | inl down ↦ rw (not_up, down) (down_key env s key down)
    | inr neither ↦ rw (not_up, neither) (same_key env s key not_up neither)
  ]
]
