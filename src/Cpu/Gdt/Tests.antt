-- ===== src/Cpu/Gdt/Tests.antt =====
-- The theorems of the global table on a zeroed one.
use larch.Prelude.{◌≡◌, some, set, arith}
use larch.Cpu.Gdt.{zeroed, gate, gdt_set_gate}
use larch.Cpu.Gdt.Fields.{base_of, limit_of, flags_of, gdt_set_gate_lem}

gdt_set_gate_lem_example :
    let e = gate 0x12345678 0xABCDE 0x9A 0xCF in
    (gdt_set_gate zeroed 3 0x12345678 0xABCDE 0x9A 0xCF
      ≡ some (record zeroed { gdt = set zeroed.gdt 3 e }))
    × (base_of e ≡ 0x12345678)
    × (limit_of e ≡ 0xABCDE)
    × (e.access ≡ 0x9A)
    × (flags_of e ≡ 0xC)
gdt_set_gate_lem_example =
    gdt_set_gate_lem zeroed 3 0x12345678 0xABCDE 0x9A 0xCF (omega arith) (omega arith) (omega arith)
