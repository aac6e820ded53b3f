-- ===== src/Shell/Editor/Recall.antt =====
-- The up arrow: the keys ESC, `[` and `A`.
use larch.Prelude.{
  ℕ, ◌≡◌, refl, ◌<◌, ◌∙◌, ap, some, List, [], ◌∷◌, ◌++◌, map, arith, ◌>>=◌, escape, IsText, length,
  lt→ltb, ne→==, append-nil, patch,
}
use larch.Console.{put}
use larch.Libc.Strings.{strlen}
use larch.Libc.Strings.Laws.{strlen-length, c_text_of_IsText}
use larch.Shell.History.{History, history_prev}
use larch.Shell.Process.{Env}
use larch.Shell.Editor.{
  Shell, shell_handle_key, plain_key, arrow_key, recall, copy_line, erase, max_command,
}
use larch.Shell.Editor.Typing.{run_keys, c_text-ended}

strlen_of_IsText : (t : List ℕ) → IsText t → strlen t ≡ length t
strlen_of_IsText t h = strlen-length t ∙ ap length (c_text_of_IsText t h)

recall_lem :
    (s : Shell) (t : List ℕ)
    → length t < length s.input_buf
    → IsText t
    → recall s t
      ≡ some (
        record s { input_buf = patch 0 (t ++ (0 ∷ [])) s.input_buf; cmd_pos = length t },
        map put t,
      )
unfolding recall copy_line
recall_lem s t h text =
    rw
      (
        lt→ltb (length t) (length s.input_buf) h,
        ◌>>=◌,
        c_text-ended t s.input_buf text,
        strlen_of_IsText t text,
      )
      refl

escape_one :
    (env : Env) (s : Shell)
    → s.escape_sequence ≡ 0
    → shell_handle_key env s escape ≡ some (record s { escape_sequence = 1 }, [])
unfolding shell_handle_key plain_key
escape_one env s e = rw e refl

bracket_one :
    (env : Env) (s : Shell)
    → shell_handle_key env (record s { escape_sequence = 1 }) b'['
      ≡ some (record s { escape_sequence = 2 }, [])
unfolding shell_handle_key
bracket_one env s = refl

up_one :
    (env : Env) (s : Shell) (c : ℕ) (t : List ℕ) (back : History)
    → length (c ∷ t) < length s.input_buf
    → IsText (c ∷ t)
    → history_prev s.history ≡ some (c ∷ t, back)
    → shell_handle_key env (record s { escape_sequence = 2 }) b'A'
      ≡ some (
        record {
          input_buf = patch 0 (c ∷ t ++ (0 ∷ [])) s.input_buf;
          cmd_pos = length (c ∷ t);
          escape_sequence = 0;
          history = back;
        },
        erase s.cmd_pos ++ map put (c ∷ t),
      )
unfolding shell_handle_key arrow_key
up_one env s c t back room text prev =
    let s1 : Shell = record s { escape_sequence = 0; history = back } in
    rw (prev, ◌>>=◌, ne→== c 0 text.0, recall_lem s1 (c ∷ t) room text) refl

-- Outside of an escape sequence, when `history_prev` returns a text that is not empty and fits the
-- buffer, the keys of the up arrow erase the characters of the line, put that text into the buffer
-- with its NUL and the cursor behind it, show it, and leave the history that `history_prev` left.
pub run_keys-up :
    (env : Env) (s : Shell) (c : ℕ) (t : List ℕ) (back : History)
    → s.escape_sequence ≡ 0
    → length s.input_buf ≡ max_command
    → length (c ∷ t) < max_command
    → IsText (c ∷ t)
    → history_prev s.history ≡ some (c ∷ t, back)
    → run_keys env s (escape ∷ b'[' ∷ b'A' ∷ [])
      ≡ some (
        record {
          input_buf = patch 0 (c ∷ t ++ (0 ∷ [])) s.input_buf;
          cmd_pos = length (c ∷ t);
          escape_sequence = 0;
          history = back;
        },
        erase s.cmd_pos ++ map put (c ∷ t),
      )
unfolding run_keys
run_keys-up env s c t back e size room text prev =
    rw
      (
        escape_one env s e,
        ◌>>=◌,
        bracket_one env s,
        up_one env s c t back (omega arith) text prev,
        append-nil,
      )
      refl
