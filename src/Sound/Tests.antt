-- ===== src/Sound/Tests.antt =====
-- Registers that keep what is written to them.
use larch.Prelude.{ℕ, ◌+◌, ◌%◌, ◌^◌, ◌≡◌, refl, List, [], ◌∷◌, arith, ◌==◌, ltb, if◌then◌else◌}
use larch.Sound.{Mmio, hda, gctl}
use larch.Sound.Streams.{
  StreamCall, play, stop, Stream, IsRegisters, Holds, calls, hear, calls-Holds,
}
use larch.Sound.Reset.{Starts, hda_init-Starts}

abbrev Registers : Type 0
Registers = ℕ → ℕ

abbrev kept_words : Mmio Registers
kept_words = record {
  read = λ a d. (d a % 2 ^ 32, d);
  write = λ a v d b. if b == a then v else d b;
}

kept_words-IsRegisters : IsRegisters Registers kept_words
kept_words-IsRegisters = record {
  same = λ a v d h. ground arith;
  other = λ a b v d h. ground arith;
}

abbrev stopped : Registers
stopped = λ a. 0x80000000

abbrev unused : Stream
unused = record { running = 0; buffer = 0x80000000; words = 0x80000000 }

stopped-Holds : (n : ℕ) → Holds Registers kept_words n stopped unused
stopped-Holds n = record { control = refl; buffer = refl; words = refl }

abbrev session : List StreamCall
session = play 0x3000 400 0 ∷ play 0x5000 800 1 ∷ stop 0 ∷ []

calls-Holds_example :
    Holds Registers kept_words 0
      (calls Registers kept_words session stopped)
      (hear 0 session unused)
calls-Holds_example =
    calls-Holds Registers kept_words kept_words-IsRegisters session 0 stopped unused (ground arith)
      (omega arith) (stopped-Holds 0)

session-first : hear 0 session unused ≡ record { running = 0; buffer = 0x3000; words = 100 }
unfolding hear
session-first = refl

-- The control word of this device shows its lowest bit at the third read of it only.
abbrev slow_device : Mmio ℕ
slow_device = record {
  read = λ a d. (if a == hda + gctl then (if ltb d 2 then 0x80 else 0x81) else 0x4401, d + 1);
  write = λ a value d. d;
}

hda_init-Starts_example : Starts ℕ slow_device 0
hda_init-Starts_example = hda_init-Starts ℕ slow_device (λ a d. ground arith) 0
