-- ===== src/Shell/Process/Dispatch.antt =====
-- How a line reaches its command.
use larch.Prelude.{
  ℕ, zero, suc, ◌<◌, ◌≡◌, refl, sym, ap, ◌∙◌, false, some, List, [], ◌∷◌, ◌++◌, map, arith, ◌==◌,
  ne→==, ◌>>=◌, AllPrintable, AllPrintable-IsText, length, get_or,
}
use larch.Console.{Event}
use larch.Libc.Strings.{c_text}
use larch.Libc.Strings.Laws.{c_text_of_IsText}
use larch.Shell.History.{History, history_add}
use larch.Shell.Tokens.{parse_command, max_args}
use larch.Shell.Tokens.Words.{words, words_from, parse_command-words, trim_newline-printable}
use larch.Shell.Process.{Env, Processed, choose, execute, shell_prompt, shell_process_command}

get_or-map : (xs : List (List ℕ)) (i : ℕ) → c_text (get_or xs i []) ≡ get_or (map c_text xs) i []
unfolding c_text
get_or-map [] i = refl
get_or-map (x ∷ xs) zero = refl
get_or-map (x ∷ xs) (suc i) = get_or-map xs i

words-nil : words [] ≡ []
unfolding words_from
words-nil = refl

length-map_texts : (xs : List (List ℕ)) → length (map c_text xs) ≡ length xs
length-map_texts [] = refl
length-map_texts (x ∷ xs) = ap suc (length-map_texts xs)

-- A line of printable characters with a first word `w` and fewer than 16 words is added to the history,
-- and then runs the command that `w`, the second word (empty when there is none) and the number of
-- words choose; the prompt follows its output.
pub shell_process_command-words :
    (env : Env) (h h1 : History) (s w : List ℕ) (ws : List (List ℕ)) (out : List Event)
    → AllPrintable s
    → words s ≡ w ∷ ws
    → length (w ∷ ws) < max_args
    → history_add h s ≡ some h1
    → execute env (choose w (get_or ws 0 []) (length (w ∷ ws))) ≡ some out
    → (r : Processed) × (shell_process_command env h s ≡ some r)
      × (r.history ≡ h1)
      × (r.output ≡ out ++ shell_prompt)
unfolding shell_process_command
shell_process_command-words env h h1 [] w ws out p split few added runs =
    absurd (ground (arith, words-nil, split))
shell_process_command-words env h h1 (c ∷ s) w ws out p split few added runs =
    let text = AllPrintable-IsText (c ∷ s) p in
    let argv = (parse_command (c ∷ s)).argv in
    let cut : map c_text argv ≡ w ∷ ws = parse_command-words (c ∷ s) text (rw split few) ∙ split in
    let count : length argv ≡ length (w ∷ ws) = sym (length-map_texts argv) ∙ ap length cut in
    let nonempty : (c == 0) ≡ false = ne→== c 0 (omega arith) in
    let some_words : (length argv == 0) ≡ false = ne→== (length argv) 0 (omega arith) in
    (
      record { history = h1; line = (parse_command (c ∷ s)).line; output = out ++ shell_prompt },
      rw
          (
            trim_newline-printable (c ∷ s) p,
            nonempty,
            c_text_of_IsText (c ∷ s) text,
            added,
            ◌>>=◌,
            some_words,
            get_or-map argv 0,
            get_or-map argv 1,
            cut,
            count,
            runs,
          )
          refl,
      refl,
      refl,
    )
