-- ===== src/Boot/Main/Starts.antt =====
-- The start of the kernel has no undefined behaviour.
use larch.Prelude.{ℕ, ◌≡◌, true, Option, some, codes}
use larch.Ram.{Ram}
use larch.Drivers.Vga.{Vga}
use larch.Boot.Main.{Externs, Addresses, Kernel}
use larch.Boot.Main.Parts.{cleared, IsUsable}

module _ {ℓ} {W : Type ℓ} (ram : Ram W) (externs : Externs W) (at : Addresses) (fuel : ℕ) where
  -- The kernel is up.
  pub record IsUp (call : Option (Kernel W)) : Type ℓ where
    pub kernel : Kernel W
    pub returns : call ≡ some kernel
    pub interrupts : kernel.interrupts ≡ true
    pub usable : IsUsable ram externs at fuel kernel

  -- The state when the boot information is about to be read.
  abbrev pub at_parsing : Kernel W → Kernel W
  at_parsing k = externs.terminal_writestring (codes "Parsing multiboot...\n") (
      externs.terminal_writestring (codes "Larch OS v1.0\n")
        (record k { screen = cleared k.screen }))
