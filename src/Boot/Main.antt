-- ===== src/Boot/Main.antt =====
-- kernel/kernel_main.c: the entry point of the kernel and its panic. The terminal, the page and
-- keyboard managers, the scheduler and the initramfs are not among the sources in C: they are
-- functions on the whole state, since they may write to the screen and call what the kernel declares.
-- The memory and the addresses that the linker chooses are parameters too. The start is one straight
-- run: an interrupt that arrives in the middle of it, which `pit_init` makes possible, is left out.
pub mod Parts
pub mod Starts
mod Tests
use larch.Prelude.{ℕ, Bool, true, Option, some, List, ◌>>=◌, codes}
use larch.Ram.{Ram}
use larch.Cpu.Gdt.{Tables, gdt_init, tss_init}
use larch.Cpu.Idt.{Idt, idt_init}
use larch.Drivers.Bus.{Bus}
use larch.Drivers.Timer.{pit_init}
use larch.Drivers.Vga.{Vga, vga_init, run}
use larch.Printf.{printf_init}
use larch.Shell.Editor.{shell_init}
use larch.Boot.Multiboot.{Sizes, parse_multiboot2}

-- Where the linker put `gdt`, `tss` and `idt`.
pub record Addresses : Type 0 where
  pub gdt : ℕ
  pub tss : ℕ
  pub idt : ℕ

-- The state of the parts, what else there is, and whether interrupts are enabled.
pub record Kernel {ℓ} (W : Type ℓ) : Type ℓ where
  pub screen : Vga
  pub tables : Tables
  pub idt : Idt
  pub sizes : Sizes
  pub bus : Bus
  pub world : W
  pub interrupts : Bool

pub record Externs {ℓ} (W : Type ℓ) : Type ℓ where
  pub terminal_writestring : List ℕ → Kernel W → Kernel W
  pub pmm_init : (mmap_lower mmap_upper bitmap_addr : ℕ) → Kernel W → Kernel W
  pub initramfs_init : Kernel W → Kernel W
  pub keyboard_init : Kernel W → Kernel W
  pub scheduler_init : Kernel W → Kernel W

module _ {ℓ} {W : Type ℓ} (ram : Ram W) (externs : Externs W) (at : Addresses) (fuel : ℕ) where
  abbrev say : List ℕ → Kernel W → Kernel W
  say = externs.terminal_writestring

  -- What it writes before it halts: the line number is not written.
  pub kernel_panic : (msg file : List ℕ) → Kernel W → Kernel W
  kernel_panic msg file k = say (codes "\nSystem halted.\n") (
      say (codes ":") (
        say file (
          say (codes "\nLocation: ")
            (say msg (say (codes "Message: ") (say (codes "\n\n KERNEL PANIC \n") k))))))

  -- A part's call between the lines that announce it and report it. `none` is undefined behaviour.
  unfoldable pub announced : List ℕ → (Kernel W → Option (Kernel W)) → Kernel W → Option (Kernel W)
  announced line init k = do ready ← init (say line k); some (say (codes "OK\n") ready)

  pub parse_information : (magic addr : ℕ) → Kernel W → Option (Kernel W)
  parse_information magic addr = announced (codes "Parsing multiboot...\n") (λ k. do
    sizes ← parse_multiboot2 ram k.world fuel magic addr k.sizes
    some (record k { sizes = sizes }))

  pub start_gdt : Kernel W → Option (Kernel W)
  start_gdt =
      announced (codes "Initializing GDT...\n")
        (λ k. do tables ← gdt_init at.gdt at.tss k.tables; some (record k { tables = tables }))

  pub start_idt : Kernel W → Option (Kernel W)
  start_idt =
      announced (codes "Initializing IDT...\n")
        (λ k. some (record k { idt = idt_init at.idt k.idt }))

  pub start_pmm : Kernel W → Option (Kernel W)
  start_pmm =
      announced (codes "Initializing PMM...\n")
        (λ k. some (externs.pmm_init k.sizes.memory_lower k.sizes.memory_upper 0x200000 k))

  pub start_tss : Kernel W → Option (Kernel W)
  start_tss =
      announced (codes "Initializing TSS...\n")
        (λ k. do tables ← tss_init at.tss k.tables 0x300000; some (record k { tables = tables }))

  pub start_printf : Kernel W → Option (Kernel W)
  start_printf =
      announced (codes "Initializing printf...\n") (λ k. do
        text ← printf_init
        screen ← run k.screen text
        some (record k { screen = screen }))

  pub start_pit : Kernel W → Option (Kernel W)
  start_pit = announced (codes "Initializing PIT...\n") (λ k.
      let (bus, interrupts) = pit_init k.bus in
      some (record k { bus = bus; interrupts = interrupts }))

  -- A part that is not among the sources.
  pub start_extern : List ℕ → (Kernel W → Kernel W) → Kernel W → Option (Kernel W)
  start_extern line init = announced line (λ k. some (init k))

  pub start_shell : Kernel W → Option (Kernel W)
  start_shell =
      announced (codes "Initializing shell...\n")
        (λ k. do screen ← run k.screen shell_init; some (record k { screen = screen }))

  -- From the entry to the loop of `hlt`, which interrupts leave and enter again.
  pub kernel_main : (magic addr : ℕ) → Kernel W → Option (Kernel W)
  kernel_main magic addr k = do
    screen ← vga_init k.screen
    k ← parse_information magic addr (say (codes "Larch OS v1.0\n") (record k { screen = screen }))
    k ← start_gdt k
    k ← start_idt k
    k ← start_pmm k
    k ← start_tss k
    k ← start_printf k
    k ← start_pit k
    k ← start_extern (codes "Initializing initramfs...\n") externs.initramfs_init k
    k ← start_extern (codes "Initializing keyboard...\n") externs.keyboard_init k
    k ← start_extern (codes "Starting scheduler...\n") externs.scheduler_init k
    k ← start_shell k
    some (record (say (codes "Larch OS is ready.\n") k) { interrupts = true })
