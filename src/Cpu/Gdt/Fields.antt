-- ===== src/Cpu/Gdt/Fields.antt =====
-- What the processor reads out of an entry of the global table.
use larch.Prelude.{
  ℕ, ◌+◌, ◌*◌, ◌/◌, ◌%◌, ◌^◌, ◌<◌, ◌≡◌, refl, some, arith, bit_and, bit_or, all_below,
  all_below_sound, ◌==◌, ==_iff, true, set, set?-eq-set, length,
}
use larch.Prelude.Bits.{bit_and_mask, bit_and_shift}
use larch.Cpu.Gdt.{GdtEntry, Tables, gate, gdt_set_gate}

-- The address, the limit in its unit, and the flags, as the processor puts them together.
unfoldable pub base_of : GdtEntry → ℕ
base_of e = e.base_high * 2 ^ 24 + e.base_middle * 2 ^ 16 + e.base_low

unfoldable pub limit_of : GdtEntry → ℕ
limit_of e = e.granularity % 16 * 2 ^ 16 + e.limit_low

unfoldable pub flags_of : GdtEntry → ℕ
flags_of e = e.granularity / 16

nibbles_table : all_below 16 (λ a. all_below 16 (λ b. bit_or a (b * 2 ^ 4) == b * 2 ^ 4 + a)) ≡ true
unfolding all_below
nibbles_table = refl

bit_or_nibbles : (a b : ℕ) → a < 16 → b < 16 → bit_or a (b * 2 ^ 4) ≡ b * 2 ^ 4 + a
bit_or_nibbles a b h k = (==_iff _ _).0 (
    all_below_sound 16 (λ q. bit_or a (q * 2 ^ 4) == q * 2 ^ 4 + a) b
      (all_below_sound 16 (λ p. all_below 16 (λ q. bit_or p (q * 2 ^ 4) == q * 2 ^ 4 + p)) a
        nibbles_table h)
      k)

-- The byte of the high limit bits and the flags.
granularity_lem :
    (limit gran : ℕ)
    → gran < 256
    → bit_or (bit_and (limit / 2 ^ 16) 15) (bit_and gran 240) ≡ gran / 16 * 16 + limit / 2 ^ 16 % 16
granularity_lem limit gran h =
    rw (bit_and_mask 4 (limit / 2 ^ 16), bit_and_shift 4 gran 15, bit_and_mask 4 (gran / 2 ^ 4))
      (omega
        (arith, bit_or_nibbles (limit / 2 ^ 16 % 16) (gran / 16 % 16) (omega arith) (omega arith)))

-- Setting a gate of the table, with a 32-bit base and an 8-bit granularity, stores an entry from
-- which the processor reads the base address, the low 20 bits of the limit, the access byte and
-- the high half of the granularity as they were given. The other entries, the pointer and the task
-- state segment are as before.
pub gdt_set_gate_lem :
    (t : Tables) (num base limit access gran : ℕ)
    → num < length t.gdt
    → base < 2 ^ 32
    → gran < 256
    → let e = gate base limit access gran in
      (gdt_set_gate t num base limit access gran ≡ some (record t { gdt = set t.gdt num e }))
      × (base_of e ≡ base)
      × (limit_of e ≡ limit % 2 ^ 20)
      × (e.access ≡ access)
      × (flags_of e ≡ gran / 16)
unfolding gate gdt_set_gate base_of limit_of flags_of
gdt_set_gate_lem t num base limit access gran lt small fits = (
  rw (set?-eq-set t.gdt num _ lt) refl,
  omega
      (arith, bit_and_mask 16 base, bit_and_mask 8 (base / 2 ^ 16), bit_and_mask 8 (base / 2 ^ 24)),
  omega (arith, bit_and_mask 16 limit, granularity_lem limit gran fits),
  refl,
  omega (arith, granularity_lem limit gran fits),
)
