-- ===== src/Cpu/Idt.antt =====
-- kernel/larch/idt.c: the interrupt descriptor table.
pub mod Fields
mod Tests
use larch.Prelude.{
  ℕ, ◌-◌, ◌*◌, ◌/◌, ◌^◌, Option, none, some, List, [], ◌∷◌, bit_and, ◌>>=◌, replicate, set?,
}

pub record IdtEntry : Type 0 where
  pub base_low : ℕ
  pub selector : ℕ
  pub zero : ℕ
  pub flags : ℕ
  pub base_high : ℕ

pub record IdtPtr : Type 0 where
  pub limit : ℕ
  pub base : ℕ

pub record Idt : Type 0 where
  pub idt : List IdtEntry
  pub idtp : IdtPtr

abbrev pub sizeof_idt_entry : ℕ
sizeof_idt_entry = 8

-- The static variables before any call.
abbrev pub zeroed : Idt
zeroed = record {
  idt = replicate 256 (record { base_low = 0; selector = 0; zero = 0; flags = 0; base_high = 0 });
  idtp = record { limit = 0; base = 0 };
}

-- `none` is a store outside of the array.
pub idt_set_gate : Idt → (num base selector flags : ℕ) → Option Idt
idt_set_gate t num base selector flags =
    let entry : IdtEntry = record {
      base_low = bit_and base 65535;
      selector = selector;
      zero = 0;
      flags = flags;
      base_high = bit_and (base / 2 ^ 16) 65535;
    } in
    set? t.idt num entry >>= (λ idt. some (record t { idt = idt }))

-- `lidt` loads the pointer into the processor and changes none of this state.
unfoldable pub idt_init : (idt_address : ℕ) → Idt → Idt
idt_init idt_address t = record t {
  idtp = record { limit = sizeof_idt_entry * 256 - 1; base = idt_address };
}
