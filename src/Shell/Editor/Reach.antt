-- ===== src/Shell/Editor/Reach.antt =====
-- What holds of the editor after any keys.
use larch.Prelude.{
  ℕ, zero, suc, ◌^◌, ◌≤◌, ◌<◌, ◌≡◌, refl, ap, sym, subst, ◌∙◌, Option, none, some, List, [], ◌∷◌,
  ◌++◌, arith, ◌==◌, ◌>>=◌, newline, length, set, set?-eq-set, length-set, patch, length-patch,
  ℕ_discrete, inl, inr, Bool-cases, ◌⊎◌,
}
use larch.Console.{Event, put}
use larch.Libc.Strings.{c_text}
use larch.Shell.Process.{Env, Processed, shell_process_command}
use larch.Shell.Process.Keeps.{Keeps, c_text-le, shell_process_command-Keeps}
use larch.Shell.Process.Stuck.{IsStuck, shell_process_command-IsStuck}
use larch.Shell.Editor.{Shell, Step, max_command, enter_key, plain_key, shell_handle_key}
use larch.Shell.Editor.Typing.{run_keys}
use larch.Shell.Editor.Safe.{IsValid, Succeeds, arrow_key-Succeeds, shell_handle_key-Succeeds}

-- A text that ends with a NUL stored at `i` is not longer than `i`.
c_text-set_le : (s : List ℕ) (i : ℕ) → i < length s → length (c_text (set s i 0)) ≤ i
unfolding c_text
c_text-set_le [] i h = absurd (omega arith)
c_text-set_le (c ∷ s) zero h = omega arith
c_text-set_le (c ∷ s) (suc i) h = ground (arith, c_text-set_le s i (omega arith))

-- What Enter leaves behind, once its command returned.
abbrev after_command : List ℕ → Processed → Step
after_command buf r = some (
  record { input_buf = patch 0 r.line buf; cmd_pos = 0; escape_sequence = 0; history = r.history },
  put newline ∷ r.output,
)

-- The command line that Enter hands over.
abbrev pub line_of : Shell → List ℕ
line_of s = c_text (set s.input_buf s.cmd_pos 0)

-- The call returns with a valid state, or the command of the line does not return.
abbrev pub Handled : Env → Shell → Step → Type 0
Handled env s step = Succeeds step ⊎ (shell_process_command env s.history (line_of s) ≡ none)

entered :
    (buf : List ℕ) (result : Option Processed)
    → length buf ≡ max_command
    → ((r : Processed) → result ≡ some r → Keeps (c_text buf) r)
    → Succeeds (◌>>=◌ {B = Shell × List Event} result (after_command buf)) ⊎ (result ≡ none)
entered buf none size keeps = inr refl
entered buf (some r) size keeps =
    let k = keeps r refl in
    let next : Shell = record {
      input_buf = patch 0 r.line buf;
      cmd_pos = 0;
      escape_sequence = 0;
      history = r.history;
    } in
    let valid : IsValid next = record {
      buffer = length-patch 0 r.line buf (omega (arith, k.same_length, c_text-le buf)) ∙ size;
      cursor = omega arith;
      history = k.valid;
    } in
    inl (record { shell = next; output = put newline ∷ r.output; returns = refl; valid = valid })

enter_key-Handled : (env : Env) (s : Shell) → IsValid s → Handled env s (enter_key env s)
unfolding enter_key
enter_key-Handled env s v =
    let buf = set s.input_buf s.cmd_pos 0 in
    let inside : s.cmd_pos < length s.input_buf = omega (arith, v.buffer, v.cursor) in
    let size : length buf ≡ max_command = length-set s.input_buf s.cmd_pos 0 ∙ v.buffer in
    rw (set?-eq-set s.input_buf s.cmd_pos 0 inside) (
      entered buf (shell_process_command env s.history (c_text buf)) size (λ r runs.
        shell_process_command-Keeps env s.history (c_text buf) v.history
          (omega (arith, c_text-set_le s.input_buf s.cmd_pos inside, v.cursor)) runs))

plain_key-Enter : (env : Env) (s : Shell) → plain_key env s newline ≡ enter_key env s
unfolding plain_key
plain_key-Enter env s = refl

-- Enter, in every state of an escape sequence.
handle_enter : (env : Env) (s : Shell) → IsValid s → Handled env s (shell_handle_key env s newline)
unfolding shell_handle_key
handle_enter env s v =
    let quiet = record s { escape_sequence = 0 } in
    let w : IsValid quiet = record { buffer = v.buffer; cursor = v.cursor; history = v.history } in
    elim (Bool-cases (s.escape_sequence == 1)) [
      | inl first ↦ rw (first, plain_key-Enter) (enter_key-Handled env quiet w)
      | inr not_first ↦ elim (Bool-cases (s.escape_sequence == 2)) [
        | inl second ↦ rw (not_first, second) (inl (arrow_key-Succeeds quiet newline w))
        | inr outside ↦ rw (not_first, outside, plain_key-Enter) (enter_key-Handled env s v)
      ]
    ]

any_key :
    (env : Env) (s : Shell) (key : ℕ)
    → IsValid s
    → Succeeds (shell_handle_key env s key)
      ⊎ ((key ≡ newline) × (shell_process_command env s.history (line_of s) ≡ none))
any_key env s key v = elim (ℕ_discrete key newline) [
  | yes is_enter ↦
      subst
        (λ k.
          Succeeds (shell_handle_key env s k)
          ⊎ ((k ≡ newline) × (shell_process_command env s.history (line_of s) ≡ none)))
        (sym is_enter)
        (elim (handle_enter env s v) [ inl ok ↦ inl ok | inr stuck ↦ inr (refl, stuck) ])
  | no other ↦ inl (shell_handle_key-Succeeds env s key other v)
]

-- The keys up to an Enter are handled, and the line of that Enter goes into the history and chooses a
-- command without a result.
pub record Stops (env : Env) (s : Shell) (keys : List ℕ) : Type 0 where
  pub before : List ℕ
  pub rest : List ℕ
  pub shell : Shell
  pub output : List Event
  pub split : keys ≡ before ++ (newline ∷ rest)
  pub returns : run_keys env s before ≡ some (shell, output)
  pub valid : IsValid shell
  pub stuck : IsStuck env shell.history (line_of shell)

run_first :
    (env : Env) (s : Shell) (key : ℕ) (ks : List ℕ) {t u : Shell} {out more : List Event}
    → shell_handle_key env s key ≡ some (t, out)
    → run_keys env t ks ≡ some (u, more)
    → run_keys env s (key ∷ ks) ≡ some (u, out ++ more)
unfolding run_keys
run_first env s key ks e f = rw (e, f) refl

-- The command of an Enter in a valid state that has no result.
enter-IsStuck :
    (env : Env) (s : Shell)
    → IsValid s
    → env.ticks < 2 ^ 32
    → shell_process_command env s.history (line_of s) ≡ none
    → IsStuck env s.history (line_of s)
enter-IsStuck env s v small e =
    shell_process_command-IsStuck env s.history (line_of s) v.history
      (omega
        (arith, c_text-set_le s.input_buf s.cmd_pos (omega (arith, v.buffer, v.cursor)), v.cursor))
      small e

-- From a valid state, with a tick counter of 32 bits, any sequence of keys is handled to its end, and
-- the state after it is valid; unless one of its keys is an Enter whose line is put into the history
-- and chooses `reboot`, `uptime` from 10000 hours on, or a `cat` or `hexdump` that has no result on
-- this file system and fuel. Up to that Enter the keys were handled and left a valid state.
pub run_keys-IsValid :
    (env : Env) (s : Shell) (keys : List ℕ)
    → IsValid s
    → env.ticks < 2 ^ 32
    → Succeeds (run_keys env s keys) ⊎ Stops env s keys
unfolding run_keys
run_keys-IsValid env s [] v small =
    inl (record { shell = s; output = []; returns = refl; valid = v })
run_keys-IsValid env s (k ∷ ks) v small = elim (any_key env s k v) [
  | inr stuck ↦ inr (record {
    before = [];
    rest = ks;
    shell = s;
    output = [];
    split = ap (λ c. c ∷ ks) stuck.0;
    returns = refl;
    valid = v;
    stuck = enter-IsStuck env s v small stuck.1;
  })
  | inl one ↦ elim (run_keys-IsValid env one.shell ks one.valid small) [
    | inl done ↦ inl (record {
      shell = done.shell;
      output = one.output ++ done.output;
      returns = run_first env s k ks one.returns done.returns;
      valid = done.valid;
    })
    | inr stops ↦ inr (record {
      before = k ∷ stops.before;
      rest = stops.rest;
      shell = stops.shell;
      output = one.output ++ stops.output;
      split = ap (λ l. k ∷ l) stops.split;
      returns = run_first env s k stops.before one.returns stops.returns;
      valid = stops.valid;
      stuck = stops.stuck;
    })
  ]
]
