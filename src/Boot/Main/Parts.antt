-- ===== src/Boot/Main/Parts.antt =====
-- What each part of the start needs and leaves.
use larch.Prelude.{ℕ, ◌≡◌, refl, Option, some, List, ◌>>=◌, arith, length, codes}
use larch.Ram.{Ram}
use larch.Console.{Event}
use larch.Cpu.Gdt.Init.{loaded, gdt_init-loaded, tss_init-length}
use larch.Drivers.Vga.{Vga, vga_init, vga_set_color, run, cell}
use larch.Drivers.Vga.Screen.{IsValid}
use larch.Drivers.Vga.Scroll.{blank_cells, vga_clear_lem, length-blank_cells}
use larch.Drivers.Vga.Session.{run-Reaches}
use larch.Printf.Init.{printf_init_lem}
use larch.Shell.Editor.{shell_init}
use larch.Boot.Multiboot.{Sizes, parse_multiboot2}
use larch.Boot.Main.{
  Externs, Addresses, Kernel, announced, parse_information, start_gdt, start_idt, start_pmm,
  start_tss, start_printf, start_pit, start_extern, start_shell,
}

-- The screen after `vga_init`.
abbrev pub cleared : Vga → Vga
cleared v =
    vga_set_color
      (record v {
        buffer = blank_cells 2000 (cell b' ' v.current_color);
        cursor_x = 0;
        cursor_y = 0;
      })
      0x0F 0x00

pub vga_init-cleared : (v : Vga) → length v.buffer ≡ 2000 → vga_init v ≡ some (cleared v)
unfolding vga_init
vga_init-cleared v h = rw (vga_clear_lem v h) refl

pub cleared-IsValid : (v : Vga) → IsValid (cleared v)
unfolding vga_set_color
cleared-IsValid v = record {
  cells = length-blank_cells 2000 (cell b' ' v.current_color);
  column = omega arith;
  row = omega arith;
}

module _ {ℓ} {W : Type ℓ} (ram : Ram W) (externs : Externs W) (at : Addresses) (fuel : ℕ) where
  -- The state in which a part can be started: a valid screen, and a table of six entries.
  pub record IsUsable (k : Kernel W) : Type 0 where
    pub screen : IsValid k.screen
    pub entries : length k.tables.gdt ≡ 6

  abbrev pub Keeps : (Kernel W → Kernel W) → Type ℓ
  Keeps f = (k : Kernel W) → IsUsable k → IsUsable (f k)

  -- What the functions that are not in C do to the rest of the kernel: they may write on the screen and
  -- set gates, but leave the screen valid and the table with its entries.
  pub record IsTame : Type ℓ where
    pub writes : (text : List ℕ) → Keeps (externs.terminal_writestring text)
    pub pmm : (lower upper bitmap : ℕ) → Keeps (externs.pmm_init lower upper bitmap)
    pub initramfs : Keeps externs.initramfs_init
    pub keyboard : Keeps externs.keyboard_init
    pub scheduler : Keeps externs.scheduler_init

  -- A part that returns, with a state in which the next one can be started.
  pub record Works (step : Option (Kernel W)) : Type ℓ where
    pub kernel : Kernel W
    pub returns : step ≡ some kernel
    pub usable : IsUsable kernel

  module _ (tame : IsTame) where
    announced-Works :
        (line : List ℕ) (init : Kernel W → Option (Kernel W)) (k : Kernel W)
        → Works (init (externs.terminal_writestring line k))
        → Works (announced ram externs at fuel line init k)
    unfolding announced
    announced-Works line init k w = record {
      kernel = externs.terminal_writestring (codes "OK\n") w.kernel;
      returns = rw w.returns refl;
      usable = tame.writes (codes "OK\n") w.kernel w.usable;
    }

    pub start_gdt-Works : (k : Kernel W) → IsUsable k → Works (start_gdt ram externs at fuel k)
    unfolding start_gdt
    start_gdt-Works k u =
        let said = externs.terminal_writestring (codes "Initializing GDT...\n") k in
        let v = tame.writes (codes "Initializing GDT...\n") k u in
        announced-Works _ _ k (record {
          kernel = record said { tables = loaded at.gdt at.tss said.tables };
          returns = rw (gdt_init-loaded at.gdt at.tss said.tables v.entries) refl;
          usable = record { screen = v.screen; entries = refl };
        })

    pub start_tss-Works : (k : Kernel W) → IsUsable k → Works (start_tss ram externs at fuel k)
    unfolding start_tss
    start_tss-Works k u =
        let said = externs.terminal_writestring (codes "Initializing TSS...\n") k in
        let v = tame.writes (codes "Initializing TSS...\n") k u in
        let t = tss_init-length at.tss 0x300000 said.tables v.entries in
        announced-Works _ _ k (record {
          kernel = record said { tables = t.0 };
          returns = rw t.1 refl;
          usable = record { screen = v.screen; entries = t.2 };
        })

    pub start_idt-Works : (k : Kernel W) → IsUsable k → Works (start_idt ram externs at fuel k)
    unfolding start_idt
    start_idt-Works k u =
        let v = tame.writes (codes "Initializing IDT...\n") k u in
        announced-Works _ _ k (record {
          kernel = _;
          returns = refl;
          usable = record { screen = v.screen; entries = v.entries };
        })

    pub start_pit-Works : (k : Kernel W) → IsUsable k → Works (start_pit ram externs at fuel k)
    unfolding start_pit
    start_pit-Works k u =
        let v = tame.writes (codes "Initializing PIT...\n") k u in
        announced-Works _ _ k (record {
          kernel = _;
          returns = refl;
          usable = record { screen = v.screen; entries = v.entries };
        })

    pub start_pmm-Works : (k : Kernel W) → IsUsable k → Works (start_pmm ram externs at fuel k)
    unfolding start_pmm
    start_pmm-Works k u = announced-Works _ _ k (record {
      kernel = _;
      returns = refl;
      usable = tame.pmm _ _ _ _ (tame.writes (codes "Initializing PMM...\n") k u);
    })

    pub start_extern-Works :
        (line : List ℕ) (init : Kernel W → Kernel W) (k : Kernel W)
        → Keeps init
        → IsUsable k
        → Works (start_extern ram externs at fuel line init k)
    unfolding start_extern
    start_extern-Works line init k keeps u =
        announced-Works _ _ k
          (record { kernel = _; returns = refl; usable = keeps _ (tame.writes line k u) })

    -- A part that writes on the screen stays inside of it.
    shown-Works :
        (k : Kernel W) (text : List Event)
        → IsUsable k
        → Works (run k.screen text >>= (λ screen. some (record k { screen = screen })))
    shown-Works k text u =
        let r = run-Reaches text k.screen u.screen in
        record {
          kernel = record k { screen = r.screen };
          returns = rw r.returns refl;
          usable = record { screen = r.valid; entries = u.entries };
        }

    pub start_printf-Works :
        (k : Kernel W) → IsUsable k → Works (start_printf ram externs at fuel k)
    unfolding start_printf
    start_printf-Works k u =
        announced-Works _ _ k (
          rw printf_init_lem (shown-Works _ _ (tame.writes (codes "Initializing printf...\n") k u)))

    pub start_shell-Works : (k : Kernel W) → IsUsable k → Works (start_shell ram externs at fuel k)
    unfolding start_shell
    start_shell-Works k u =
        announced-Works _ _ k
          (shown-Works _ shell_init (tame.writes (codes "Initializing shell...\n") k u))

    pub parse_information-Works :
        (magic addr : ℕ) (k : Kernel W) (sizes : Sizes)
        → (let said = externs.terminal_writestring (codes "Parsing multiboot...\n") k in
            parse_multiboot2 ram said.world fuel magic addr said.sizes ≡ some sizes)
        → IsUsable k
        → Works (parse_information ram externs at fuel magic addr k)
    unfolding parse_information
    parse_information-Works magic addr k sizes parsed u =
        let v = tame.writes (codes "Parsing multiboot...\n") k u in
        announced-Works _ _ k (record {
          kernel = record (externs.terminal_writestring (codes "Parsing multiboot...\n") k) {
            sizes = sizes;
          };
          returns = rw parsed refl;
          usable = record { screen = v.screen; entries = v.entries };
        })
