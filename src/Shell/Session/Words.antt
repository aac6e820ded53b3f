-- ===== src/Shell/Session/Words.antt =====
-- Lines of words.
use larch.Prelude.{ℕ, ◌≤◌, ◌≡◌, refl, ap, false, true, List, [], ◌∷◌, arith, AllPrintable}
use larch.Shell.Tokens.Words.{separates, words_from, first_word}

-- A word: printable characters but for the blank.
abbrev pub AllGraph : List ℕ → Type 0
AllGraph [] = Unit {0}
AllGraph (c ∷ s) = ((33 ≤ c) × (c ≤ 126)) × AllGraph s

pub AllGraph-AllPrintable : (s : List ℕ) → AllGraph s → AllPrintable s
AllGraph-AllPrintable [] g = ground arith
AllGraph-AllPrintable (c ∷ s) g = ground (arith, AllGraph-AllPrintable s g.1)

pub graph_blank : (c : ℕ) → 33 ≤ c → separates c ≡ false
unfolding separates
graph_blank c h = ground arith

pub words_from-graph : (s : List ℕ) → AllGraph s → words_from true s ≡ []
unfolding words_from
words_from-graph [] g = refl
words_from-graph (c ∷ s) g = rw (graph_blank c g.0.0) (words_from-graph s g.1)

pub first_word-graph : (s : List ℕ) → AllGraph s → first_word s ≡ s
unfolding first_word
first_word-graph [] g = refl
first_word-graph (c ∷ s) g = rw (graph_blank c g.0.0) (ap (λ r. c ∷ r) (first_word-graph s g.1))
