-- ===== src/Cpu/Small.antt =====
-- kernel/larch/gdt.c, a global table of three entries, and kernel/tss/tss.c, a task state segment of its
-- own. Their structs and their `gdt_set_gate` have the text of those of gdt_full.c.
pub mod Agrees
use larch.Prelude.{ℕ, ◌-◌, ◌*◌, Option, some, List, ◌>>=◌, set?}
use larch.Cpu.Gdt
use larch.Cpu.Gdt.{gate, sizeof_gdt_entry, sizeof_tss_entry}

abbrev pub GdtEntry : Type 0
GdtEntry = Gdt.GdtEntry

abbrev pub GdtPtr : Type 0
GdtPtr = Gdt.GdtPtr

abbrev pub TssEntry : Type 0
TssEntry = Gdt.TssEntry

pub record SmallTables : Type 0 where
  pub gdt : List GdtEntry
  pub gp : GdtPtr

-- `none` is a store outside of the array.
pub gdt_set_gate : SmallTables → (num base limit access gran : ℕ) → Option SmallTables
gdt_set_gate t num base limit access gran =
    set? t.gdt num (gate base limit access gran) >>= (λ gdt. some (record t { gdt = gdt }))

pub gdt_init : (gdt_address : ℕ) → SmallTables → Option SmallTables
gdt_init gdt_address t =
    let gp : GdtPtr = record { limit = sizeof_gdt_entry * 3 - 1; base = gdt_address } in
    gdt_set_gate (record t { gp = gp }) 0 0 0 0 0
    >>= (λ t1. gdt_set_gate t1 1 0 0xFFFFFFFF 0x9A 0xCF)
    >>= (λ t2. gdt_set_gate t2 2 0 0xFFFFFFFF 0x92 0xCF)

-- `tss_ptr` is computed and not used; `ltr` changes none of this state.
pub tss_init : (kernel_stack : ℕ) → TssEntry → TssEntry
tss_init kernel_stack tss = record tss {
  ss0 = 0x10;
  esp0 = kernel_stack;
  iomap_base = sizeof_tss_entry;
}

pub tss_set_kernel_stack : (stack : ℕ) → TssEntry → TssEntry
tss_set_kernel_stack stack tss = record tss { esp0 = stack }
