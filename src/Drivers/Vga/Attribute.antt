-- ===== src/Drivers/Vga/Attribute.antt =====
-- The colour byte, and the cell that a character becomes.
use larch.Prelude.{
  ℕ, ◌+◌, ◌*◌, ◌<◌, ◌≡◌, refl, true, arith, ◌==◌, ltb, if◌then◌else◌, bit_or, all_below,
  all_below_sound, ==_iff,
}
use larch.Prelude.Bits.{bit_or_fields, bit_or_high}
use larch.Drivers.Vga.{Vga, vga_set_color, promoted, cell}

-- For a 4-bit foreground and background the colour byte holds the background in its high half and
-- the foreground in its low half, and nothing else of the screen changes.
pub vga_set_color_lem :
    (v : Vga) (fg bg : ℕ)
    → fg < 16
    → bg < 16
    → vga_set_color v fg bg ≡ record v { current_color = bg * 16 + fg }
unfolding vga_set_color
vga_set_color_lem v fg bg h k = ground (arith, bit_or_fields 4 bg fg h)

ones_table : all_below 256 (λ q. bit_or q 255 == 255) ≡ true
unfolding all_below
ones_table = refl

bit_or-ones : (q : ℕ) → q < 256 → bit_or q 255 ≡ 255
bit_or-ones q h = (==_iff _ 255).0 (all_below_sound 256 (λ p. bit_or p 255 == 255) q ones_table h)

-- An ASCII character becomes a cell with the character in its low byte and the colour in its high
-- byte. Any other byte is sign-extended first, which sets every bit of the colour byte, whatever
-- the colour was.
pub cell_lem :
    (c colour : ℕ)
    → c < 256
    → colour < 256
    → cell c colour ≡ (if ltb c 128 then colour * 256 + c else 255 * 256 + c)
unfolding cell promoted
cell_lem c colour h k =
    ground (arith, bit_or_fields 8 colour c h, bit_or_high 8 colour 255 c h, bit_or-ones colour k)
