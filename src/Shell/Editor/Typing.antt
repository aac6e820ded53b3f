-- ===== src/Shell/Editor/Typing.antt =====
-- Typing a line and pressing Enter.
use larch.Prelude.{
  ℕ, suc, ◌+◌, ◌≤◌, ◌<◌, ◌≡◌, refl, sym, ◌∙◌, none, some, List, [], ◌∷◌, ◌++◌, map, arith, ◌>>=◌,
  newline, IsText, AllPrintable, AllPrintable-IsText, append_assoc, append-nil, length, set,
  set?-eq-set, patch, patch-set, length-set, length-patch, patch-nil, patch-patch,
}
use larch.Console.{put}
use larch.Libc.Strings.{c_text}
use larch.Shell.Process.{Env, Processed, shell_process_command}
use larch.Shell.Editor.{Shell, Step, shell_handle_key, plain_key, enter_key, max_command}

-- The keys of a sequence, one after the other.
unfoldable pub run_keys : Env → Shell → List ℕ → Step
run_keys env s [] = some (s, [])
run_keys env s (k ∷ ks) =
    shell_handle_key env s k >>= (λ r. run_keys env r.0 ks >>= (λ q. some (q.0, r.1 ++ q.1)))

-- A printable key is stored at the cursor and shown.
type_one :
    (env : Env) (s : Shell) (c : ℕ)
    → s.escape_sequence ≡ 0
    → length s.input_buf ≡ max_command
    → s.cmd_pos < 255
    → 32 ≤ c
    → c ≤ 126
    → shell_handle_key env s c
      ≡ some (
        record s { input_buf = set s.input_buf s.cmd_pos c; cmd_pos = s.cmd_pos + 1 },
        put c ∷ [],
      )
unfolding shell_handle_key plain_key
type_one env s c e size room lo hi =
    let stored = set?-eq-set s.input_buf s.cmd_pos c (omega arith) in ground (arith, stored)

c_text-append : (t rest : List ℕ) → IsText t → c_text (t ++ (0 ∷ rest)) ≡ t
unfolding c_text
c_text-append [] rest h = refl
c_text-append (c ∷ t) rest h = ground (arith, c_text-append t rest h.1)

-- The shell after a text was typed into its buffer.
abbrev typed : Shell → List ℕ → Shell
typed s t = record s { input_buf = patch s.cmd_pos t s.input_buf; cmd_pos = s.cmd_pos + length t }

abbrev after : List ℕ → Step → Step
after t r = r >>= (λ q. some (q.0, map put t ++ q.1))

after-nil : (r : Step) → after [] r ≡ r
after-nil none = refl
after-nil (some q) = refl

after-cons : (c : ℕ) (t : List ℕ) (r : Step) → after (c ∷ []) (after t r) ≡ after (c ∷ t) r
after-cons c t none = refl
after-cons c t (some q) = refl

typed-nil : (s : Shell) → typed s [] ≡ s
typed-nil s = let here : s.cmd_pos + 0 ≡ s.cmd_pos = omega arith in rw (patch-nil, here) refl

typed-cons :
    (s : Shell) (c : ℕ) (t : List ℕ)
    → s.cmd_pos < length s.input_buf
    → typed (record s { input_buf = set s.input_buf s.cmd_pos c; cmd_pos = s.cmd_pos + 1 }) t
      ≡ typed s (c ∷ t)
typed-cons s c t h =
    let next : s.cmd_pos + 1 ≡ suc s.cmd_pos = omega arith in
    let total : suc s.cmd_pos + length t ≡ s.cmd_pos + suc (length t) = omega arith in
    rw (next, patch-set s.cmd_pos c t s.input_buf h, total) refl

type_all :
    (env : Env) (s : Shell) (t ks : List ℕ)
    → s.escape_sequence ≡ 0
    → length s.input_buf ≡ max_command
    → s.cmd_pos + length t < max_command
    → AllPrintable t
    → run_keys env s (t ++ ks) ≡ after t (run_keys env (typed s t) ks)
unfolding run_keys
type_all env s [] ks e size room p = rw (typed-nil s, after-nil) refl
type_all env s (c ∷ t) ks e size room p =
    let s1 : Shell = record s {
      input_buf = set s.input_buf s.cmd_pos c;
      cmd_pos = s.cmd_pos + 1;
    } in
    rw
      (
        type_one env s c e size (omega arith) p.0.0 p.0.1,
        ◌>>=◌,
        type_all env s1 t ks e (rw length-set size) (omega arith) p.1,
        typed-cons s c t (omega arith),
      )
      (after-cons c t (run_keys env (typed s (c ∷ t)) ks))

-- Enter on a buffer that holds `t` runs the command on `t`.
enter_one :
    (env : Env) (s : Shell) (t : List ℕ) (r : Processed)
    → s.escape_sequence ≡ 0
    → c_text (set s.input_buf s.cmd_pos 0) ≡ t
    → s.cmd_pos < length s.input_buf
    → shell_process_command env s.history t ≡ some r
    → shell_handle_key env s newline
      ≡ some (
        record {
          input_buf = patch 0 r.line (set s.input_buf s.cmd_pos 0);
          cmd_pos = 0;
          escape_sequence = 0;
          history = r.history;
        },
        put newline ∷ r.output,
      )
unfolding shell_handle_key plain_key enter_key
enter_one env s t r e text room runs =
    rw (e, set?-eq-set s.input_buf s.cmd_pos 0 room, ◌>>=◌, text, runs) refl

pub ended-patch :
    (t buf : List ℕ)
    → length t < length buf
    → set (patch 0 t buf) (length t) 0 ≡ patch 0 (t ++ (0 ∷ [])) buf
ended-patch t buf h =
    let fits : length (patch 0 t buf) ≡ length buf = length-patch 0 t buf (omega arith) in
    let stored = patch-set (length t) 0 [] (patch 0 t buf) (omega (arith, fits)) in
    sym (patch-nil (suc (length t)) (set (patch 0 t buf) (length t) 0))
    ∙ (stored ∙ patch-patch 0 t buf (omega arith) (length t) (0 ∷ []) (omega arith))

pub c_text-ended : (t buf : List ℕ) → IsText t → c_text (patch 0 (t ++ (0 ∷ [])) buf) ≡ t
unfolding patch
c_text-ended t buf h = rw append_assoc (c_text-append t _ h)

-- From an empty line outside of an escape sequence, typing a text of at most 255 printable characters
-- and Enter shows the text and a line break and then runs exactly that text as a command. The next
-- line starts empty, with the history that the command left.
pub run_keys-line :
    (env : Env) (s : Shell) (t : List ℕ) (r : Processed)
    → s.escape_sequence ≡ 0
    → s.cmd_pos ≡ 0
    → length s.input_buf ≡ max_command
    → length t < max_command
    → AllPrintable t
    → shell_process_command env s.history t ≡ some r
    → run_keys env s (t ++ (newline ∷ []))
      ≡ some (
        record {
          input_buf = patch 0 r.line (patch 0 (t ++ (0 ∷ [])) s.input_buf);
          cmd_pos = 0;
          escape_sequence = 0;
          history = r.history;
        },
        map put t ++ (put newline ∷ r.output),
      )
unfolding run_keys
run_keys-line env s t r e start size room p runs =
    let full : length (patch 0 t s.input_buf) ≡ length s.input_buf =
      length-patch 0 t s.input_buf (omega arith) in
    let s1 : Shell = record s { input_buf = patch 0 t s.input_buf; cmd_pos = length t } in
    let ended = ended-patch t s.input_buf (omega arith) in
    let text : c_text (set (patch 0 t s.input_buf) (length t) 0) ≡ t =
      (rw ended (c_text-ended t s.input_buf (AllPrintable-IsText t p))) in
    let behind : 0 + length t ≡ length t = omega arith in
    type_all env s t (newline ∷ []) e size (omega arith) p
    ∙ rw
        (
          start,
          behind,
          enter_one env s1 t r e text (omega (arith, full)) runs,
          ◌>>=◌,
          ended,
          append-nil,
        )
        refl
