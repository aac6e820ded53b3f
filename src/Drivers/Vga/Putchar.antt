-- ===== src/Drivers/Vga/Putchar.antt =====
-- `vga_putchar` is the terminal's `type_char`.
use larch.Prelude.{
  ℕ, ◌+◌, ◌-◌, ◌*◌, ◌/◌, ◌%◌, ◌^◌, ◌≤◌, ◌≡◌, refl, ap, ◌≢◌, Option, some, List, [], ◌∷◌, ◌++◌,
  arith, ◌>>=◌, length, set, set?-eq-set, length-set, newline, backspace, ℕ_discrete, dec_lt,
}
use larch.Prelude.Bits.{bit_and_mask}
use larch.Drivers.Vga.{
  Vga, vga_putchar, put_char, write_cell, wrap_column, scroll_if_below, move_cursor, cell,
}
use larch.Drivers.Vga.Scroll.{scrolled, vga_scroll_lem, length-scrolled}
use larch.Drivers.Vga.Screen.{Terminal, settle, strike, type_char, view, IsValid}

-- A cursor at most one step off the screen.
record IsReady (v : Vga) : Type 0 where
  cells : length v.buffer ≡ 2000
  column : v.cursor_x ≤ 80
  below : v.cursor_y + v.cursor_x / 80 ≤ 25

-- The four bytes that tell the hardware the position of the cursor.
abbrev pub report : ℕ → List (ℕ × ℕ)
report at = (0x3D4, 0x0F) ∷ (0x3D5, at % 256) ∷ (0x3D4, 0x0E) ∷ (0x3D5, at / 256) ∷ []

-- The new screen is valid, shows the terminal `t`, and has reported its position.
pub record Shows (v : Vga) (t : Terminal) (result : Option Vga) : Type 0 where
  pub screen : Vga
  pub returns : result ≡ some screen
  pub valid : IsValid screen
  pub same : view screen ≡ t
  pub reported : screen.ports ≡ v.ports ++ report t.at

Shows-move_cursor :
    (v w : Vga) (t : Terminal) (result : Option Vga)
    → result ≡ some (move_cursor w)
    → IsValid w
    → view w ≡ t
    → w.ports ≡ v.ports
    → Shows v t result
unfolding move_cursor
Shows-move_cursor v w t result r h e p = record {
  screen = move_cursor w;
  returns = r;
  valid = ground arith;
  same = e;
  reported = ground (
    arith,
    bit_and_mask 8 ((w.cursor_y * 80 + w.cursor_x) % 2 ^ 16),
    ap (λ (u : Terminal). u.at) e,
  );
}

settle_lem :
    (v w : Vga)
    → IsReady w
    → w.ports ≡ v.ports
    → Shows v (settle (view w)) (scroll_if_below (wrap_column w) >>= λ u. some (move_cursor u))
unfolding settle scroll_if_below wrap_column
settle_lem v w h p = elim (dec_lt w.cursor_x 80) [
  | yes inside ↦ elim (dec_lt w.cursor_y 25) [
    | yes on ↦ Shows-move_cursor v w _ _ (ground arith) (ground arith) (ground arith) p
    | no below ↦
        Shows-move_cursor v
          (record w { buffer = scrolled w.buffer (cell b' ' w.current_color); cursor_y = 24 }) _ _
          (ground (arith, vga_scroll_lem w h.cells))
          (ground (arith, length-scrolled w.buffer (cell b' ' w.current_color) h.cells))
          (ground arith) p
  ]
  | no wraps ↦
      let u : Vga = record w { cursor_x = 0; cursor_y = w.cursor_y + 1 } in
      elim (dec_lt w.cursor_y 24) [
        | yes on ↦ Shows-move_cursor v u _ _ (ground arith) (ground arith) (ground arith) p
        | no below ↦
            Shows-move_cursor v
              (record u { buffer = scrolled w.buffer (cell b' ' w.current_color); cursor_y = 24 }) _
              _ (ground (arith, vga_scroll_lem u h.cells))
              (ground (arith, length-scrolled w.buffer (cell b' ' w.current_color) h.cells))
              (ground arith) p
      ]
]

abbrev Strikes : Vga → ℕ → Type 0
Strikes v c =
    (w : Vga) × (put_char v c ≡ some w)
    × IsReady w
    × (view w ≡ strike (view v) c)
    × (w.ports ≡ v.ports)

strike_newline : (v : Vga) (c : ℕ) → IsValid v → c ≡ newline → Strikes v c
unfolding put_char strike
strike_newline v c h e = (
  record v { cursor_x = 0; cursor_y = v.cursor_y + 1 },
  ground arith,
  ground arith,
  ground arith,
  refl,
)

strike_return : (v : Vga) (c : ℕ) → IsValid v → c ≡ b'\r' → Strikes v c
unfolding put_char strike
strike_return v c h e = (record v { cursor_x = 0 }, ground arith, ground arith, ground arith, refl)

strike_backspace : (v : Vga) (c : ℕ) → IsValid v → c ≡ backspace → Strikes v c
unfolding put_char strike write_cell
strike_backspace v c h e = elim (ℕ_discrete v.cursor_x 0) [
  | yes z ↦ (v, ground arith, ground arith, ground arith, refl)
  | no nz ↦
      let blank = cell b' ' v.current_color in
      let at = v.cursor_y * 80 + (v.cursor_x - 1) in
      (
        record v { buffer = set v.buffer at blank; cursor_x = v.cursor_x - 1 },
        ground (arith, set?-eq-set v.buffer at blank),
        ground (arith, length-set v.buffer at blank),
        ground arith,
        refl,
      )
]

strike_print : (v : Vga) (c : ℕ) → IsValid v → c ≢ newline → c ≢ b'\r' → c ≢ backspace → Strikes v c
unfolding put_char strike write_cell
strike_print v c h a b d =
    let value = cell c v.current_color in
    let at = v.cursor_y * 80 + v.cursor_x in
    (
      record v { buffer = set v.buffer at value; cursor_x = v.cursor_x + 1 },
      ground (arith, set?-eq-set v.buffer at value),
      ground (arith, length-set v.buffer at value),
      ground arith,
      refl,
    )

strike_lem : (v : Vga) (c : ℕ) → IsValid v → Strikes v c
strike_lem v c h = elim (ℕ_discrete c newline) [
  | yes a ↦ strike_newline v c h a
  | no a ↦ elim (ℕ_discrete c b'\r') [
    | yes b ↦ strike_return v c h b
    | no b ↦ elim (ℕ_discrete c backspace) [
      | yes d ↦ strike_backspace v c h d
      | no d ↦ strike_print v c h a b d
    ]
  ]
]

type_char_lem : (t : Terminal) (c : ℕ) → type_char t c ≡ settle (strike t c)
type_char_lem t c = unfold type_char in refl

Shows-strike :
    (v w : Vga) (c : ℕ)
    → put_char v c ≡ some w
    → IsReady w
    → view w ≡ strike (view v) c
    → w.ports ≡ v.ports
    → Shows v (type_char (view v) c) (vga_putchar v c)
unfolding vga_putchar
Shows-strike v w c e r s p = rw (type_char_lem, e, ← s) (settle_lem v w r p)

-- On a valid screen every character, on every branch, stays inside of the video memory and does to
-- the screen what `type_char` does to the terminal; the screen stays valid, and the cursor registers
-- are told the new position.
pub vga_putchar-Shows :
    (v : Vga) (c : ℕ) → IsValid v → Shows v (type_char (view v) c) (vga_putchar v c)
vga_putchar-Shows v c h = let (w, e, r, s, p) = strike_lem v c h in Shows-strike v w c e r s p
