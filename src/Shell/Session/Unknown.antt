-- ===== src/Shell/Session/Unknown.antt =====
-- A command that the shell does not know, from the keys to the screen.
use larch.Prelude.{
  ℕ, zero, suc, ◌<◌, ◌≡◌, ◌≢◌, refl, sym, ap, ◌∙◌, Bool, true, false, ◌&&◌, some, List, [], ◌∷◌,
  ◌++◌, arith, length, codes, IsText, AllPrintable-IsText,
}
use larch.Prelude.Int.{ℤ, pos, negsuc}
use larch.Console.{Event, color, writestring}
use larch.Libc.Strings.{strcmp}
use larch.Libc.Strings.Laws.{c_text_of_IsText, strcmp-zero_iff}
use larch.Drivers.Vga.{Vga}
use larch.Shell.Tokens.Words.{words, words_from}
use larch.Shell.Process.{Env, unknown, is_zero, is_name, choose, execute}
use larch.Shell.Editor.{Shell}
use larch.Shell.Session.{Waits, CommandShown, run_keys-command}
use larch.Shell.Session.Words.{
  AllGraph, AllGraph-AllPrintable, graph_blank, words_from-graph, first_word-graph,
}

-- The names that choose a command without an argument.
abbrev pub names : List (List ℕ)
names =
    codes "help"
    ∷ codes "clear"
    ∷ codes "reboot"
    ∷ codes "ls"
    ∷ codes "echo"
    ∷ codes "mem"
    ∷ codes "uptime"
    ∷ codes "uname"
    ∷ codes "date"
    ∷ codes "top"
    ∷ []

-- `w` is none of these names.
abbrev pub NoneOf : List (List ℕ) → List ℕ → Type 0
NoneOf [] w = Unit {0}
NoneOf (n ∷ ns) w = (w ≢ n) × NoneOf ns w

is_zero-other : (a : ℤ) → a ≢ pos 0 → is_zero a ≡ false
is_zero-other (pos zero) h = absurd (h refl)
is_zero-other (pos (suc n)) h = refl
is_zero-other (negsuc n) h = refl

is_name-other : (w n : List ℕ) → IsText w → IsText n → w ≢ n → is_name w n ≡ false
is_name-other w n t u ne =
    is_zero-other (strcmp w n)
      (λ e. ne (sym (c_text_of_IsText w t) ∙ (strcmp-zero_iff w n).0 e ∙ c_text_of_IsText n u))

no_argument : (b : Bool) → b && false ≡ false
no_argument true = refl
no_argument false = refl

choose-unknown : (w : List ℕ) → IsText w → NoneOf names w → choose w [] 1 ≡ unknown w
unfolding choose
choose-unknown w t (h0, (h1, (h2, (h3, (h4, (h5, (h6, (h7, (h8, (h9, _)))))))))) =
    let other : (n : List ℕ) → IsText n → w ≢ n → is_name w n ≡ false =
      (λ n u ne. is_name-other w n t u ne) in
    rw
      (
        other (codes "help") (ground arith) h0,
        other (codes "clear") (ground arith) h1,
        other (codes "reboot") (ground arith) h2,
        other (codes "ls") (ground arith) h3,
        no_argument,
        other (codes "echo") (ground arith) h4,
        other (codes "mem") (ground arith) h5,
        other (codes "uptime") (ground arith) h6,
        other (codes "uname") (ground arith) h7,
        no_argument,
        other (codes "date") (ground arith) h8,
        other (codes "top") (ground arith) h9,
      )
      refl

words-word : (w : List ℕ) → AllGraph w → 0 < length w → words w ≡ w ∷ []
unfolding words_from
words-word [] g h = absurd (omega arith)
words-word (c ∷ s) g h =
    rw (graph_blank c g.0.0, first_word-graph s g.1, words_from-graph s g.1) refl

-- What the shell says of an unknown command.
abbrev pub complaint : List ℕ → List Event
complaint w =
    (color 0x0C 0x00 ∷ [])
    ++ (writestring (codes "Unknown command: ")
        ++ (writestring w ++ (writestring (codes "\n") ++ (color 0x0F 0x00 ∷ []))))

complained : (env : Env) (w : List ℕ) → execute env (unknown w) ≡ some (complaint w)
unfolding execute
complained env w = refl

-- Typing a single word that is none of the ten names of commands without an argument, and Enter, at a
-- shell that waits for a line: the shell echoes the line, says that the command is unknown, naming it,
-- and shows the prompt; the screen shows this as a terminal does; the line is added to the history.
-- `cat` and `hexdump` without a file are such words.
pub run_keys-unknown :
    (env : Env) (s : Shell) (v : Vga) (w : List ℕ)
    → Waits s v
    → AllGraph w
    → 0 < length w
    → length w < 256
    → NoneOf names w
    → CommandShown env s v w (complaint w)
run_keys-unknown env s v w h g some_text short other =
    let text = AllGraph-AllPrintable w g in
    run_keys-command env s v w w [] (complaint w) h text short (words-word w g some_text)
      (omega arith)
      (ap (execute env) (choose-unknown w (AllPrintable-IsText w text) other) ∙ complained env w)
