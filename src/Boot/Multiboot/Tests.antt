-- ===== src/Boot/Multiboot/Tests.antt =====
-- A memory map with one entry, behind the words that a loader writes first.
use larch.Prelude.{ℕ, ◌≡◌, refl, some, List, [], ◌∷◌, get_or}
use larch.Ram.{Ram, load32, load16, load8}
use larch.Boot.Multiboot.{initial_sizes, parse_multiboot2}
use larch.Boot.Multiboot.Tags.{parse_multiboot2-reserved}

abbrev bytes : Ram (List ℕ)
bytes = record { load = λ w a. get_or w a 0; store = λ a v w. w }

abbrev information : List ℕ
information =
    72 ∷ 0 ∷ 0 ∷ 0 ∷ 0 ∷ 0 ∷ 0 ∷ 0 ∷ 6 ∷ 0 ∷ 0 ∷ 0 ∷ 40 ∷ 0 ∷ 0 ∷ 0 ∷ 24 ∷ 0 ∷ 0 ∷ 0 ∷ 0 ∷ 0 ∷ 0 ∷ 0
    ∷ 0 ∷ 0 ∷ 0 ∷ 0 ∷ 0 ∷ 0 ∷ 0 ∷ 0 ∷ 0 ∷ 0xFC ∷ 9 ∷ 0 ∷ 0 ∷ 0 ∷ 0 ∷ 0 ∷ 1 ∷ 0 ∷ 0 ∷ 0 ∷ 0 ∷ 0 ∷ 0
    ∷ 0 ∷ []

parse_multiboot2-reserved_example :
    parse_multiboot2 bytes information 10 0x36D76289 0 initial_sizes ≡ some initial_sizes
unfolding load32 load16 load8
parse_multiboot2-reserved_example =
    parse_multiboot2-reserved bytes information 9 0x36D76289 0 initial_sizes refl
