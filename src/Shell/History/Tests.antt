-- ===== src/Shell/History/Tests.antt =====
-- The theorems of the history after two commands.
use larch.Prelude.{refl, [], ◌∷◌, arith, codes, replicate}
use larch.Prelude.Int.{pos}
use larch.Shell.History.{History, history_add}
use larch.Shell.History.Add.{IsValid, stored, Added, history_add-Added}

abbrev two_commands : History
two_commands = record {
  rows = codes "ls" ∷ codes "mem" ∷ replicate 18 [];
  history_count = 2;
  current_history_index = pos 1;
}

two_commands-IsValid : IsValid two_commands
two_commands-IsValid = record {
  table = refl;
  count = omega arith;
  fit = ground arith;
  index = stored 1 (omega arith);
}

history_add-Added_example :
    Added (codes "ls" ∷ codes "mem" ∷ codes "top" ∷ []) (history_add two_commands (codes "top"))
history_add-Added_example =
    history_add-Added two_commands (codes "top") two_commands-IsValid (omega arith)
