-- ===== src/Cpu/Gdt/Init.antt =====
-- The table that `gdt_init` leaves.
use larch.Prelude.{
  ℕ, ◌-◌, ◌≡◌, refl, some, List, [], ◌∷◌, arith, length, set?-eq-set, length-set, ◌∙◌,
}
use larch.Cpu.Gdt.{
  GdtEntry, Tables, gate, gdt_set_gate, tss_init, load_task_register, gdt_init, sizeof_tss_entry,
}
use larch.Cpu.Gdt.Fields.{base_of, limit_of, flags_of}

-- A segment as the processor sees it.
pub record Segment : Type 0 where
  pub base : ℕ
  pub limit : ℕ
  pub access : ℕ
  pub flags : ℕ

unfoldable pub segment : GdtEntry → Segment
segment e = record { base = base_of e; limit = limit_of e; access = e.access; flags = flags_of e }

-- A segment of the whole address space, in pages, with 32-bit code or data.
abbrev pub flat : ℕ → Segment
flat access = record { base = 0; limit = 0xFFFFF; access = access; flags = 0xC }

six_entries :
    (xs : List GdtEntry)
    → length xs ≡ 6
    → (a : GdtEntry) × (b : GdtEntry) × (c : GdtEntry) × (d : GdtEntry) × (e : GdtEntry)
      × (f : GdtEntry) × (xs ≡ a ∷ b ∷ c ∷ d ∷ e ∷ f ∷ [])
six_entries [] h = absurd (omega arith)
six_entries (a ∷ []) h = absurd (omega arith)
six_entries (a ∷ b ∷ []) h = absurd (omega arith)
six_entries (a ∷ b ∷ c ∷ []) h = absurd (omega arith)
six_entries (a ∷ b ∷ c ∷ d ∷ []) h = absurd (omega arith)
six_entries (a ∷ b ∷ c ∷ d ∷ e ∷ []) h = absurd (omega arith)
six_entries (a ∷ b ∷ c ∷ d ∷ e ∷ f ∷ []) h = (a, b, c, d, e, f, refl)
six_entries (a ∷ b ∷ c ∷ d ∷ e ∷ f ∷ g ∷ xs) h = absurd (omega arith)

-- The entries that do not depend on an address, before the others.
abbrev flat_entries : List Segment → List Segment
flat_entries rest =
    record { base = 0; limit = 0; access = 0; flags = 0 }
    ∷ flat 0x9A
    ∷ flat 0x92
    ∷ flat 0xFA
    ∷ flat 0xF2
    ∷ rest

-- The tables after `gdt_init`, where `t` had six entries.
abbrev pub loaded : (gdt_address tss_address : ℕ) → Tables → Tables
loaded gdt_address tss_address t = record {
  gdt =
      gate 0 0 0 0
      ∷ gate 0 0xFFFFFFFF 0x9A 0xCF
      ∷ gate 0 0xFFFFFFFF 0x92 0xCF
      ∷ gate 0 0xFFFFFFFF 0xFA 0xCF
      ∷ gate 0 0xFFFFFFFF 0xF2 0xCF
      ∷ gate tss_address (sizeof_tss_entry - 1) 0x8B 0x40
      ∷ [];
  gp = record { limit = 47; base = gdt_address };
  tss = record t.tss {
    ss0 = 0x10;
    esp0 = 0x200000;
    cs = 0x0B;
    ds = 0x13;
    es = 0x13;
    fs = 0x13;
    gs = 0x13;
    ss = 0x13;
    iomap_base = sizeof_tss_entry;
  };
}

pub gdt_init-loaded :
    (gdt_address tss_address : ℕ) (t : Tables)
    → length t.gdt ≡ 6
    → gdt_init gdt_address tss_address t ≡ some (loaded gdt_address tss_address t)
unfolding gdt_init tss_init load_task_register gdt_set_gate gate
gdt_init-loaded gdt_address tss_address t h =
    let (a, b, c, d, e, f, split) = six_entries t.gdt h in rw split refl

-- A second `tss_init` stores its entry inside of the table.
pub tss_init-length :
    (tss_address kernel_stack : ℕ) (t : Tables)
    → length t.gdt ≡ 6
    → (t' : Tables) × (tss_init tss_address t kernel_stack ≡ some t') × (length t'.gdt ≡ 6)
unfolding tss_init gdt_set_gate
tss_init-length tss_address kernel_stack t h =
    let entry = gate tss_address (sizeof_tss_entry - 1) 0x89 0x40 in
    rw (set?-eq-set t.gdt 5 entry (omega (arith, h))) (_, refl, length-set t.gdt 5 entry ∙ h)
