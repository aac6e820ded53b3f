-- ===== src/Drivers/Plain/Wrap.antt =====
-- Where the text goes.
use larch.Prelude.{
  ℕ, ◌+◌, ◌*◌, ◌/◌, ◌%◌, ◌^◌, ◌<◌, ◌≡◌, refl, ap, ap₂, subst, ◌∙◌, bit_or, Option, some, List, [],
  ◌∷◌, arith, ◌==◌, if◌then◌else◌, ◌>>=◌, newline, length, set, set?-eq-set, length-set, inl, inr,
  Bool-cases,
}
use larch.Drivers.Vga.{promoted}
use larch.Drivers.Plain.{Plain, put_cell, wrap_column, wrap_row, vga_putchar, vga_write}

-- The video memory has its size, and the cursor is on the screen.
pub record IsValid (v : Plain) : Type 0 where
  pub cells : length v.buffer ≡ 2000
  pub column : v.cursor_x < 80
  pub row : v.cursor_y < 25

abbrev pub at : Plain → ℕ
at v = v.cursor_y * 80 + v.cursor_x

-- The cell that a character goes to: a line break goes to the start of the next row, and behind the last
-- cell is the first one.
abbrev pub advance : (c at : ℕ) → ℕ
advance c at = if c == newline then (at / 80 + 1) % 25 * 80 else (at + 1) % 2000

abbrev pub cell_of : (c color : ℕ) → ℕ
cell_of c color = bit_or (promoted c) (color * 2 ^ 8)

-- The cells and the position after a text.
unfoldable pub written : List ℕ → (color : ℕ) → List ℕ × ℕ → List ℕ × ℕ
written [] color s = s
written (c ∷ str) color s =
    written str color (if c == newline then s.0 else set s.0 s.1 (cell_of c color), advance c s.1)

-- The call returns, on a valid screen with these cells and this position.
pub record Writes (after : List ℕ × ℕ) (call : Option Plain) : Type 0 where
  pub screen : Plain
  pub returns : call ≡ some screen
  pub valid : IsValid screen
  pub cells : screen.buffer ≡ after.0
  pub position : at screen ≡ after.1

-- The wrap of a position one behind a column or a row.
wrapped :
    (v : Plain)
    → length v.buffer ≡ 2000
    → v.cursor_x < 81
    → v.cursor_y < 25
    → IsValid (wrap_row (wrap_column v))
unfolding wrap_row wrap_column
wrapped v size x y = record { cells = ground arith; column = ground arith; row = ground arith }

wrapped_at :
    (v : Plain) → v.cursor_x < 81 → v.cursor_y < 25 → at (wrap_row (wrap_column v)) ≡ at v % 2000
unfolding wrap_row wrap_column
wrapped_at v x y = ground arith

wrapped_buffer : (v : Plain) → (wrap_row (wrap_column v)).buffer ≡ v.buffer
unfolding wrap_row wrap_column
wrapped_buffer v = ground arith

broken :
    (v : Plain)
    → IsValid v
    → IsValid (wrap_row (wrap_column (record v { cursor_x = 0; cursor_y = v.cursor_y + 1 })))
unfolding wrap_row wrap_column
broken v h = record {
  cells = ground (arith, h.cells);
  column = ground arith;
  row = ground (arith, h.row);
}

broken_at :
    (v : Plain)
    → IsValid v
    → at (wrap_row (wrap_column (record v { cursor_x = 0; cursor_y = v.cursor_y + 1 })))
      ≡ (at v / 80 + 1) % 25 * 80
unfolding wrap_row wrap_column
broken_at v h =
    let row : at v / 80 ≡ v.cursor_y = omega (arith, h.column) in ground (arith, row, h.row)

vga_putchar-Writes :
    (v : Plain) (c color : ℕ)
    → IsValid v
    → Writes
        (if c == newline then v.buffer else set v.buffer (at v) (cell_of c color), advance c (at v))
        (vga_putchar v c color)
unfolding vga_putchar put_cell
vga_putchar-Writes v c color h = elim (Bool-cases (c == newline)) [
  | inl line ↦
      let w : Plain = record v { cursor_x = 0; cursor_y = v.cursor_y + 1 } in
      rw line (record {
        screen = wrap_row (wrap_column w);
        returns = refl;
        valid = broken v h;
        cells = wrapped_buffer w;
        position = broken_at v h;
      })
  | inr char ↦
      let buf = set v.buffer (at v) (cell_of c color) in
      let w : Plain = record v { buffer = buf; cursor_x = v.cursor_x + 1 } in
      let inside : at v < length v.buffer = omega (arith, h.cells, h.column, h.row) in
      let x : v.cursor_x + 1 < 81 = omega (arith, h.column) in
      rw (char, set?-eq-set v.buffer (at v) (cell_of c color) inside, ◌>>=◌)
        (record {
          screen = wrap_row (wrap_column w);
          returns = refl;
          valid = wrapped w (length-set v.buffer (at v) (cell_of c color) ∙ h.cells) x h.row;
          cells = wrapped_buffer w;
          position =
              (let next : at w ≡ at v + 1 = omega arith in
                wrapped_at w x h.row ∙ ap (λ n. n % 2000) next);
        })
]

-- From a valid screen a text of any length is written without a store outside of the video memory: each
-- character goes to the cell behind the one before, a line break to the start of the next row, and from the
-- last cell the text goes on at the first.
pub vga_write-Writes :
    (v : Plain) (str : List ℕ) (color : ℕ)
    → IsValid v
    → Writes (written str color (v.buffer, at v)) (vga_write v str color)
unfolding vga_write written
vga_write-Writes v [] color h = record {
  screen = v;
  returns = refl;
  valid = h;
  cells = refl;
  position = refl;
}
vga_write-Writes v (c ∷ str) color h =
    let one = vga_putchar-Writes v c color h in
    let rest = vga_write-Writes one.screen str color one.valid in
    let same = ap₂ (λ cells position. written str color (cells, position)) one.cells one.position in
    rw (one.returns, ◌>>=◌) (subst (λ s. Writes s (vga_write one.screen str color)) same rest)
