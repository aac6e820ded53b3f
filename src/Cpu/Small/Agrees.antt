-- ===== src/Cpu/Small/Agrees.antt =====
-- The small table is the start of the full one.
use larch.Prelude.{ℕ, ◌≡◌, refl, some, List, [], ◌∷◌, take, length, arith}
use larch.Cpu.Gdt
use larch.Cpu.Gdt.{GdtEntry, Tables, gate}
use larch.Cpu.Gdt.Init.{loaded, gdt_init-loaded}
use larch.Cpu.Small.{SmallTables, gdt_set_gate, gdt_init}

three_entries :
    (xs : List GdtEntry)
    → length xs ≡ 3
    → (a : GdtEntry) × (b : GdtEntry) × (c : GdtEntry) × (xs ≡ a ∷ b ∷ c ∷ [])
three_entries [] h = absurd (omega arith)
three_entries (a ∷ []) h = absurd (omega arith)
three_entries (a ∷ b ∷ []) h = absurd (omega arith)
three_entries (a ∷ b ∷ c ∷ []) h = (a, b, c, refl)
three_entries (a ∷ b ∷ c ∷ d ∷ xs) h = absurd (omega arith)

-- Both tables load, and the three entries of the small one are the first three of the full one.
pub gdt_init-take :
    (gdt_address tss_address : ℕ) (s : SmallTables) (t : Tables)
    → length s.gdt ≡ 3
    → length t.gdt ≡ 6
    → (s' : SmallTables) × (t' : Tables) × (gdt_init gdt_address s ≡ some s')
      × (Gdt.gdt_init gdt_address tss_address t ≡ some t')
      × (s'.gdt ≡ take 3 t'.gdt)
      × (s'.gp ≡ record { limit = 23; base = gdt_address })
unfolding gdt_init gdt_set_gate
gdt_init-take gdt_address tss_address s t h k =
    let (a, b, c, split) = three_entries s.gdt h in
    (
      record {
        gdt = take 3 (loaded gdt_address tss_address t).gdt;
        gp = record { limit = 23; base = gdt_address };
      },
      loaded gdt_address tss_address t,
      rw split refl,
      gdt_init-loaded gdt_address tss_address t k,
      refl,
      refl,
    )
