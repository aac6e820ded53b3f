-- ===== src/Shell/Keyboard/Tests.antt =====
-- The keys of "ls", pressed and let go, and an arrow.
use larch.Prelude.{ℕ, refl, List, [], ◌∷◌, arith, replicate}
use larch.Prelude.Int.{pos}
use larch.Shell.History.{History}
use larch.Shell.History.Add
use larch.Shell.History.Add.{stored}
use larch.Shell.Keyboard.{Line, scancode, readline_from}
use larch.Shell.Keyboard.Safe.{Reads, readline_from-Reads}

abbrev keys : List ℕ
keys = 0x26 ∷ 0xA6 ∷ 0x1F ∷ 0x9F ∷ []

abbrev no_commands : History
no_commands = record { rows = replicate 20 []; history_count = 0; current_history_index = pos 0 }

no_commands-IsValid : Add.IsValid no_commands
no_commands-IsValid = record {
  table = refl;
  count = omega arith;
  fit = ground arith;
  index = stored 0 (omega arith);
}

abbrev empty_line : Line
empty_line = record { buf = replicate 256 0; pos = 0; history = no_commands }

readline_from-Reads_example :
    Reads 256 (readline_from 256 scancode empty_line (0x01 ∷ 0x1C ∷ 0x4D ∷ 0x48 ∷ 0x26 ∷ []))
readline_from-Reads_example =
    readline_from-Reads 256 scancode empty_line (0x01 ∷ 0x1C ∷ 0x4D ∷ 0x48 ∷ 0x26 ∷ []) (record {
      buffer = omega arith;
      limit = omega arith;
      cursor = omega arith;
      history = no_commands-IsValid;
    })
