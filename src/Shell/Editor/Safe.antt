-- ===== src/Shell/Editor/Safe.antt =====
-- No key but Enter leaves the buffer, whatever was typed before.
use larch.Prelude.{
  ℕ, ◌+◌, ◌-◌, ◌≤◌, ◌<◌, ◌≡◌, ◌≢◌, refl, ◌∙◌, true, ◌&&◌, some, List, [], ◌∷◌, ◌++◌, arith, ◌==◌,
  ltb, leb, if◌then◌else◌, ◌>>=◌, newline, backspace, escape, length, set, set?, set?-eq-set,
  length-set, length-append, patch, length-patch, get_or, Bool-cases, lt→ltb, inl, inr, ne→==,
}
use larch.Console.{Event, put, writestring}
use larch.Libc.Strings.{c_text, strlen}
use larch.Shell.History.{History}
use larch.Shell.History.Add
use larch.Shell.History.Served.{history_prev-Served, history_next-Served}
use larch.Shell.Process.{Env}
use larch.Shell.Editor.{
  Shell, Step, max_command, erase, copy_line, recall, arrow_key, plain_key, shell_handle_key,
}

-- The buffer has its size, the cursor leaves room for the NUL, and the history is valid.
pub record IsValid (s : Shell) : Type 0 where
  pub buffer : length s.input_buf ≡ max_command
  pub cursor : s.cmd_pos < max_command
  pub history : Add.IsValid s.history

-- The call returns, with a valid state.
pub record Succeeds (step : Step) : Type 0 where
  pub shell : Shell
  pub output : List Event
  pub returns : step ≡ some (shell, output)
  pub valid : IsValid shell

pub strlen-le : (s : List ℕ) → strlen s ≤ length s
unfolding strlen
strlen-le [] = omega arith
strlen-le (c ∷ s) = ground (arith, strlen-le s)

recall-Succeeds :
    (s : Shell) (text : List ℕ) → IsValid s → length text < max_command → Succeeds (recall s text)
unfolding recall copy_line
recall-Succeeds s text v h =
    let buf = patch 0 (text ++ 0 ∷ []) s.input_buf in
    record {
      shell = record s { input_buf = buf; cmd_pos = strlen text };
      output = writestring (c_text buf);
      returns = rw (lt→ltb (length text) (length s.input_buf) (omega (arith, v.buffer))) refl;
      valid = record {
        buffer =
            length-patch 0 (text ++ 0 ∷ []) s.input_buf
              (omega (arith, length-append text (0 ∷ []), v.buffer))
            ∙ v.buffer;
        cursor = omega (arith, strlen-le text);
        history = v.history;
      };
    }

after_erase :
    (step : Step) (out : List Event)
    → Succeeds step
    → Succeeds (step >>= (λ q. some (q.0, out ++ q.1)))
after_erase step out r = record {
  shell = r.shell;
  output = out ++ r.output;
  returns = rw r.returns refl;
  valid = r.valid;
}

-- The two cases of an arrow, once the history has answered with a text.
abbrev show_entry : (s : Shell) (text : List ℕ) → Step → Step
show_entry s text empty =
    if get_or text 0 0 == 0
    then empty
    else (recall s text >>= (λ q. some (q.0, erase s.cmd_pos ++ q.1)))

show_entry-Succeeds :
    (s : Shell) (text : List ℕ) (empty : Step)
    → IsValid s
    → length text < max_command
    → Succeeds empty
    → Succeeds (show_entry s text empty)
show_entry-Succeeds s text empty v h e = elim (Bool-cases (get_or text 0 0 == 0)) [
  | inl none_left ↦ rw none_left e
  | inr found ↦
      rw found (after_erase (recall s text) (erase s.cmd_pos) (recall-Succeeds s text v h))
]

unchanged : (s : Shell) (out : List Event) → IsValid s → Succeeds (some (s, out))
unchanged s out v = record { shell = s; output = out; returns = refl; valid = v }

with_history :
    (s : Shell) (h : History) → IsValid s → Add.IsValid h → IsValid (record s { history = h })
with_history s h v w = record { buffer = v.buffer; cursor = v.cursor; history = w }

cleared :
    (s : Shell) (out : List Event)
    → IsValid s
    → Succeeds
        (set? s.input_buf 0 0 >>= (λ buf. some (record s { input_buf = buf; cmd_pos = 0 }, out)))
cleared s out v = record {
  shell = record s { input_buf = set s.input_buf 0 0; cmd_pos = 0 };
  output = out;
  returns = rw (set?-eq-set s.input_buf 0 0 (omega (arith, v.buffer))) refl;
  valid = record {
    buffer = length-set s.input_buf 0 0 ∙ v.buffer;
    cursor = omega arith;
    history = v.history;
  };
}

pub arrow_key-Succeeds : (s : Shell) (key : ℕ) → IsValid s → Succeeds (arrow_key s key)
unfolding arrow_key
arrow_key-Succeeds s key v =
    let p = history_prev-Served s.history v.history in
    let n = history_next-Served s.history v.history in
    elim (Bool-cases (key == b'A')) [
      | inl up ↦
          rw (up, p.returns, ◌>>=◌)
            (let s1 = record s { history = p.history } in
              let w = with_history s p.history v p.valid in
              show_entry-Succeeds s1 p.text (some (s1, [])) w p.fits (unchanged s1 [] w))
      | inr other ↦ elim (Bool-cases (key == b'B')) [
        | inl down ↦
            rw (other, down, n.returns, ◌>>=◌)
              (let s1 = record s { history = n.history } in
                let w = with_history s n.history v n.valid in
                show_entry-Succeeds s1 n.text _ w n.fits (cleared s1 (erase s.cmd_pos) w))
        | inr neither ↦ rw (other, neither) (unchanged s [] v)
      ]
    ]

typed_key :
    (s : Shell) (key : ℕ)
    → IsValid s
    → ltb s.cmd_pos (max_command - 1) ≡ true
    → Succeeds (
        set? s.input_buf s.cmd_pos key
        >>= (λ buf. some (record s { input_buf = buf; cmd_pos = s.cmd_pos + 1 }, put key ∷ [])))
typed_key s key v room = record {
  shell = record s { input_buf = set s.input_buf s.cmd_pos key; cmd_pos = s.cmd_pos + 1 };
  output = put key ∷ [];
  returns = rw (set?-eq-set s.input_buf s.cmd_pos key (omega (arith, v.buffer, v.cursor))) refl;
  valid = record {
    buffer = length-set s.input_buf s.cmd_pos key ∙ v.buffer;
    cursor = ground arith;
    history = v.history;
  };
}

erased_key :
    (s : Shell)
    → IsValid s
    → Succeeds (
        if ltb 0 s.cmd_pos
        then some (record s { cmd_pos = s.cmd_pos - 1 }, put backspace ∷ [])
        else some (s, []))
erased_key s v = elim (Bool-cases (ltb 0 s.cmd_pos)) [
  | inl more ↦ rw more (
      unchanged (record s { cmd_pos = s.cmd_pos - 1 }) (put backspace ∷ [])
        (record { buffer = v.buffer; cursor = omega (arith, v.cursor); history = v.history }))
  | inr start ↦ rw start (unchanged s [] v)
]

plain_key-Succeeds :
    (env : Env) (s : Shell) (key : ℕ) → key ≢ newline → IsValid s → Succeeds (plain_key env s key)
unfolding plain_key
plain_key-Succeeds env s key ne v = elim (Bool-cases (key == escape)) [
  | inl begins ↦ rw begins (
      unchanged (record s { escape_sequence = 1 }) []
        (record { buffer = v.buffer; cursor = v.cursor; history = v.history }))
  | inr other ↦ elim (Bool-cases (key == backspace)) [
    | inl back ↦ rw (other, ne→== key newline ne, back) (erased_key s v)
    | inr char ↦ elim (Bool-cases (leb 32 key && leb key 126 && ltb s.cmd_pos (max_command - 1))) [
      | inl taken ↦ rw (other, ne→== key newline ne, char, taken) (typed_key s key v (ground arith))
      | inr ignored ↦ rw (other, ne→== key newline ne, char, ignored) (unchanged s [] v)
    ]
  ]
]

-- From a valid state every key but Enter, in every state of an escape sequence, is handled without
-- leaving the buffer or the history, and the state after it is valid: the cursor always leaves room for
-- the NUL that Enter stores.
pub shell_handle_key-Succeeds :
    (env : Env) (s : Shell) (key : ℕ)
    → key ≢ newline
    → IsValid s
    → Succeeds (shell_handle_key env s key)
unfolding shell_handle_key
shell_handle_key-Succeeds env s key ne v =
    let quiet = record s { escape_sequence = 0 } in
    let w : IsValid quiet = record { buffer = v.buffer; cursor = v.cursor; history = v.history } in
    elim (Bool-cases (s.escape_sequence == 1)) [
      | inl first ↦ elim (Bool-cases (key == b'[')) [
        | inl bracket ↦
            rw (first, bracket)
              (unchanged (record s { escape_sequence = 2 }) []
                (record { buffer = v.buffer; cursor = v.cursor; history = v.history }))
        | inr other ↦ rw (first, other) (plain_key-Succeeds env quiet key ne w)
      ]
      | inr not_first ↦ elim (Bool-cases (s.escape_sequence == 2)) [
        | inl second ↦ rw (not_first, second) (arrow_key-Succeeds quiet key w)
        | inr outside ↦ rw (not_first, outside) (plain_key-Succeeds env s key ne v)
      ]
    ]
