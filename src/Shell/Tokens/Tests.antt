-- ===== src/Shell/Tokens/Tests.antt =====
-- The theorems of the tokenizer on two lines.
use larch.Prelude.{◌≡◌, map, arith, codes}
use larch.Libc.Strings.{c_text}
use larch.Shell.Tokens.{parse_command}
use larch.Shell.Tokens.Words.{separates, words, words_from, parse_command-words}

parse_command-words_example :
    map c_text (parse_command (codes " echo  hi\t you")).argv ≡ words (codes " echo  hi\t you")
parse_command-words_example =
    parse_command-words (codes " echo  hi\t you") (ground arith)
      (unfold words_from separates in omega arith)
