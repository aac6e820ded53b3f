-- ===== src/Cpu/Idt/Fields.antt =====
-- The gates of the interrupt table hold what they were set to.
use larch.Prelude.{
  ℕ, ◌+◌, ◌*◌, ◌/◌, ◌^◌, ◌<◌, ◌≡◌, refl, some, arith, bit_and, get_elem?, set?-eq-set, length,
  get_elem?-set_self, get_elem?-set_ne, ◌≢◌,
}
use larch.Prelude.Bits.{bit_and_mask}
use larch.Cpu.Idt.{IdtEntry, Idt, idt_set_gate}

-- The address that the processor reads out of a gate.
unfoldable pub handler : IdtEntry → ℕ
handler e = e.base_high * 2 ^ 16 + e.base_low

handler-fields :
    (base : ℕ) → base < 2 ^ 32 → bit_and (base / 2 ^ 16) 65535 * 2 ^ 16 + bit_and base 65535 ≡ base
handler-fields base h = omega (arith, bit_and_mask 16 base, bit_and_mask 16 (base / 2 ^ 16))

-- Setting a gate of the table to a 32-bit address makes that gate point to it under the given
-- selector and flags, with its reserved byte zero, and leaves every other gate and the table's
-- pointer as they were.
pub idt_set_gate_lem :
    (t : Idt) (num base selector flags : ℕ)
    → num < length t.idt
    → base < 2 ^ 32
    → (t' : Idt) × (e : IdtEntry) × (idt_set_gate t num base selector flags ≡ some t')
      × (get_elem? t'.idt num ≡ some e)
      × (handler e ≡ base)
      × (e.selector ≡ selector)
      × (e.flags ≡ flags)
      × (e.zero ≡ 0)
      × ((j : ℕ) → num ≢ j → get_elem? t'.idt j ≡ get_elem? t.idt j)
      × (t'.idtp ≡ t.idtp)
unfolding idt_set_gate handler
idt_set_gate_lem t num base selector flags lt small = (
  _,
  _,
  rw (set?-eq-set t.idt num _ lt) refl,
  get_elem?-set_self t.idt num _ lt,
  handler-fields base small,
  refl,
  refl,
  refl,
  λ j ne. get_elem?-set_ne t.idt _ ne,
  refl,
)
