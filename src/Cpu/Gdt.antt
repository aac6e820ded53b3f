-- ===== src/Cpu/Gdt.antt =====
-- kernel/gdt/gdt_full.c: the global descriptor table, its pointer and the task state segment. The
-- addresses of `gdt` and `tss`, which the linker chooses, are parameters; `lgdt` and the loads of the
-- segment registers change none of this state, and `ltr` marks the entry that it loads as busy.
pub mod Fields
pub mod Init
mod Tests
use larch.Prelude.{
  ℕ, ◌-◌, ◌*◌, ◌/◌, ◌%◌, ◌^◌, Option, none, some, List, [], ◌∷◌, bit_and, bit_or, ◌>>=◌, replicate,
  get_elem?, set?,
}

pub record GdtEntry : Type 0 where
  pub limit_low : ℕ
  pub base_low : ℕ
  pub base_middle : ℕ
  pub access : ℕ
  pub granularity : ℕ
  pub base_high : ℕ

-- `sizeof(struct gdt_entry)`, which is packed.
abbrev pub sizeof_gdt_entry : ℕ
sizeof_gdt_entry = 8

pub record GdtPtr : Type 0 where
  pub limit : ℕ
  pub base : ℕ

pub record TssEntry : Type 0 where
  pub prev_tss : ℕ
  pub esp0 : ℕ
  pub ss0 : ℕ
  pub esp1 : ℕ
  pub ss1 : ℕ
  pub esp2 : ℕ
  pub ss2 : ℕ
  pub cr3 : ℕ
  pub eip : ℕ
  pub eflags : ℕ
  pub eax : ℕ
  pub ecx : ℕ
  pub edx : ℕ
  pub ebx : ℕ
  pub esp : ℕ
  pub ebp : ℕ
  pub esi : ℕ
  pub edi : ℕ
  pub es : ℕ
  pub cs : ℕ
  pub ss : ℕ
  pub ds : ℕ
  pub fs : ℕ
  pub gs : ℕ
  pub ldt : ℕ
  pub trap : ℕ
  pub iomap_base : ℕ

-- 25 words of four bytes and two of two.
abbrev pub sizeof_tss_entry : ℕ
sizeof_tss_entry = 104

pub record Tables : Type 0 where
  pub gdt : List GdtEntry
  pub gp : GdtPtr
  pub tss : TssEntry

-- The static variables before any call.
abbrev pub zeroed : Tables
zeroed = record {
  gdt = replicate 6 (record {
    limit_low = 0;
    base_low = 0;
    base_middle = 0;
    access = 0;
    granularity = 0;
    base_high = 0;
  });
  gp = record { limit = 0; base = 0 };
  tss = record {
    prev_tss = 0;
    esp0 = 0;
    ss0 = 0;
    esp1 = 0;
    ss1 = 0;
    esp2 = 0;
    ss2 = 0;
    cr3 = 0;
    eip = 0;
    eflags = 0;
    eax = 0;
    ecx = 0;
    edx = 0;
    ebx = 0;
    esp = 0;
    ebp = 0;
    esi = 0;
    edi = 0;
    es = 0;
    cs = 0;
    ss = 0;
    ds = 0;
    fs = 0;
    gs = 0;
    ldt = 0;
    trap = 0;
    iomap_base = 0;
  };
}

-- The entry that `gdt_set_gate` stores: every field of the slot is written.
pub gate : (base limit access gran : ℕ) → GdtEntry
gate base limit access gran = record {
  limit_low = bit_and limit 65535;
  base_low = bit_and base 65535;
  base_middle = bit_and (base / 2 ^ 16) 255;
  access = access;
  granularity = bit_or (bit_and (limit / 2 ^ 16) 15) (bit_and gran 240);
  base_high = bit_and (base / 2 ^ 24) 255;
}

-- `none` is a store outside of the array.
pub gdt_set_gate : Tables → (num base limit access gran : ℕ) → Option Tables
unfolding gate
gdt_set_gate t num base limit access gran =
    set? t.gdt num (gate base limit access gran) >>= (λ gdt. some (record t { gdt = gdt }))

pub tss_init : (tss_address : ℕ) → Tables → (kernel_stack : ℕ) → Option Tables
unfolding gdt_set_gate
tss_init tss_address t kernel_stack =
    let tss = record t.tss {
      ss0 = 0x10;
      esp0 = kernel_stack;
      cs = 0x0B;
      ds = 0x13;
      es = 0x13;
      fs = 0x13;
      gs = 0x13;
      ss = 0x13;
      iomap_base = sizeof_tss_entry;
    } in
    gdt_set_gate (record t { tss = tss }) 5 tss_address (sizeof_tss_entry - 1) 0x89 0x40

-- `ltr` with the segment selector of an available task state segment, which becomes a busy one: the
-- processor sets bit 1 of the descriptor's type. `none` is a selector outside of the table.
unfoldable pub load_task_register : (selector : ℕ) → Tables → Option Tables
load_task_register selector t =
    get_elem? t.gdt (selector / 8)
    >>= (λ e. set? t.gdt (selector / 8) (record e { access = bit_or e.access 2 }))
    >>= (λ gdt. some (record t { gdt = gdt }))

pub gdt_init : (gdt_address tss_address : ℕ) → Tables → Option Tables
unfolding tss_init load_task_register
gdt_init gdt_address tss_address t =
    let gp : GdtPtr = record { limit = sizeof_gdt_entry * 6 - 1; base = gdt_address } in
    gdt_set_gate (record t { gp = gp }) 0 0 0 0 0
    >>= (λ t1. gdt_set_gate t1 1 0 0xFFFFFFFF 0x9A 0xCF)
    >>= (λ t2. gdt_set_gate t2 2 0 0xFFFFFFFF 0x92 0xCF)
    >>= (λ t3. gdt_set_gate t3 3 0 0xFFFFFFFF 0xFA 0xCF)
    >>= (λ t4. gdt_set_gate t4 4 0 0xFFFFFFFF 0xF2 0xCF)
    >>= (λ t5. tss_init tss_address t5 0x200000)
    >>= (λ t6. load_task_register 0x28 t6)
