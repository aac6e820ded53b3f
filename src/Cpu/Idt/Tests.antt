-- ===== src/Cpu/Idt/Tests.antt =====
-- The theorem of the interrupt table on a zeroed one.
use larch.Prelude.{ℕ, ◌≡◌, ◌≢◌, some, get_elem?, arith}
use larch.Cpu.Idt.{zeroed, Idt, IdtEntry, idt_set_gate}
use larch.Cpu.Idt.Fields.{handler, idt_set_gate_lem}

idt_set_gate_lem_example :
    (t' : Idt) × (e : IdtEntry) × (idt_set_gate zeroed 0x80 0x00101234 0x08 0xEE ≡ some t')
    × (get_elem? t'.idt 0x80 ≡ some e)
    × (handler e ≡ 0x00101234)
    × (e.selector ≡ 0x08)
    × (e.flags ≡ 0xEE)
    × (e.zero ≡ 0)
    × ((j : ℕ) → 0x80 ≢ j → get_elem? t'.idt j ≡ get_elem? zeroed.idt j)
    × (t'.idtp ≡ zeroed.idtp)
idt_set_gate_lem_example =
    idt_set_gate_lem zeroed 0x80 0x00101234 0x08 0xEE (omega arith) (omega arith)
