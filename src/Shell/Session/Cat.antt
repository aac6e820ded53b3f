-- ===== src/Shell/Session/Cat.antt =====
-- `cat` over the table of kernel/fs/initramfs.c, from the keys to the screen.
use larch.Prelude.{
  ℕ, ◌+◌, ◌<◌, ◌^◌, ◌≡◌, ◌≢◌, refl, ◌∙◌, some, List, [], ◌∷◌, ◌++◌, map, arith, length, get_elem?,
  newline, codes, AllPrintable,
}
use larch.Console.{put}
use larch.Libc.Strings.{strcmp}
use larch.Fs.Initramfs.{File, Fs}
use larch.Fs.Initramfs.Open
use larch.Fs.Initramfs.Service.{initramfs}
use larch.Drivers.Vga.{Vga}
use larch.Shell.Cat.{cmd_cat}
use larch.Shell.Cat.Stored.{cmd_cat-stored}
use larch.Shell.Tokens.Words.{separates, words, words_from, first_word}
use larch.Shell.Process.{Env, choose, execute}
use larch.Shell.Editor.{Shell}
use larch.Shell.Session.{Waits, CommandShown, run_keys-command}
use larch.Shell.Session.Words.{
  AllGraph, AllGraph-AllPrintable, graph_blank, words_from-graph, first_word-graph,
}

-- The line of a `cat`.
abbrev pub cat_line : List ℕ → List ℕ
cat_line name = codes "cat " ++ name

words-cat_line :
    (c : ℕ) (s : List ℕ)
    → AllGraph (c ∷ s)
    → words (cat_line (c ∷ s)) ≡ codes "cat" ∷ ((c ∷ s) ∷ [])
unfolding words_from first_word separates
words-cat_line c s g = rw (graph_blank c g.0.0, first_word-graph s g.1, words_from-graph s g.1) refl

cat_line-AllPrintable : (name : List ℕ) → AllGraph name → AllPrintable (cat_line name)
cat_line-AllPrintable name g = ground (arith, AllGraph-AllPrintable name g)

choose-cat :
    (env : Env) (name : List ℕ)
    → execute env (choose (codes "cat") name 2) ≡ cmd_cat env.sys env.fuel env.cat_stack name
unfolding execute choose strcmp
choose-cat env name = refl

words-cat :
    (name : List ℕ)
    → AllGraph name
    → 0 < length name
    → words (cat_line name) ≡ codes "cat" ∷ (name ∷ [])
words-cat [] g h = absurd (omega arith)
words-cat (c ∷ s) g h = words-cat_line c s g

module _ (env : Env) (s : Shell) (v : Vga) (fs : Fs) (i : ℕ) (f : File) where
  -- The shell waits for a line over a valid table, of which the `i`-th file is the first of its name; the
  -- name is a word, and the size of the file is the length of its data.
  pub record Ready : Type 0 where
    pub waits : Waits s v
    pub system : env.sys ≡ initramfs fs
    pub array : length env.cat_stack ≡ 256
    pub fuel : f.size < env.fuel
    pub table : Open.IsValid fs
    pub counted : i < fs.file_count
    pub at : get_elem? fs.files i ≡ some f
    pub first : (j : ℕ) (g : File) → j < i → get_elem? fs.files j ≡ some g → g.name ≢ f.name
    pub exact : f.size ≡ length f.bytes
    pub small : f.size + 256 < 2 ^ 32
    pub named : 0 < length f.name
    pub word : AllGraph f.name
    pub short : length f.name < 252

  cat-runs :
      Ready
      → execute env (choose (codes "cat") f.name 2)
        ≡ some (put newline ∷ (map put f.bytes ++ (put newline ∷ [])))
  cat-runs h =
      choose-cat env f.name
      ∙ rw h.system (
          cmd_cat-stored fs i f env.fuel env.cat_stack h.table h.counted h.at h.first h.exact
            h.small h.array h.fuel)

  -- Typing `cat`, a blank, the name of a file of the table and Enter at a shell that waits for a line
  -- echoes the line, prints the bytes of that file between two line breaks, and then the prompt; the
  -- screen stays valid and shows all of it as a terminal does; the line is added to the history, and
  -- the next line starts empty.
  pub run_keys-cat :
      Ready
      → CommandShown env s v
          (cat_line f.name)
          (put newline ∷ (map put f.bytes ++ (put newline ∷ [])))
  run_keys-cat h =
      run_keys-command env s v (cat_line f.name) (codes "cat") (f.name ∷ []) _ h.waits
        (cat_line-AllPrintable f.name h.word) (omega (arith, h.short))
        (words-cat f.name h.word h.named) (omega arith) (cat-runs h)
