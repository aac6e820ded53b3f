-- ===== src/Drivers/Vga/Scroll.antt =====
-- The loops of `vga_scroll` and `vga_clear` against what they do to the array of cells.
use larch.Prelude.{
  ℕ, zero, suc, ◌+◌, ◌-◌, ◌*◌, ◌≤◌, ◌<◌, ◌≡◌, refl, ap, ◌∙◌, some, List, [], ◌++◌, arith, ◌>>=◌,
  length, take, drop, set, replicate, patch, patch-nil, patch-set, patch-patch, drop-patch,
  length-patch, length-set, length-take, length-drop, length-replicate, get_elem?_exists,
  set?-eq-set, drop-eq-cons, drop-set, take-add, drop-drop, take-all, drop-all, length-append,
  take-append_eq, append-nil,
}
use larch.Drivers.Vga.{Vga, scroll_row, scroll_rows, fill_cells, vga_scroll, vga_clear, cell}

pub fill_cells_lem :
    (left base x value : ℕ) (buf : List ℕ)
    → base + x + left ≤ length buf
    → fill_cells left base x value buf ≡ some (patch (base + x) (replicate left value) buf)
unfolding fill_cells
fill_cells_lem zero base x value buf h = rw patch-nil refl
fill_cells_lem (suc left) base x value buf h =
    let next : base + suc x ≡ suc (base + x) = omega arith in
    rw
      (
        set?-eq-set buf (base + x) value (omega arith),
        fill_cells_lem left base (suc x) value (set buf (base + x) value)
            (rw length-set (omega arith)),
        next,
        patch-set (base + x) value (replicate left value) buf (omega arith),
      )
      refl

-- One row: `left` cells from column `x` are replaced by those a row below.
scroll_row_lem :
    (left y x k : ℕ) (buf : List ℕ)
    → k ≡ (y - 1) * 80 + x
    → 0 < y
    → k + 80 + left ≤ length buf
    → scroll_row left y x buf ≡ some (patch k (take left (drop (k + 80) buf)) buf)
unfolding scroll_row
scroll_row_lem zero y x k buf ek hy h = rw patch-nil refl
scroll_row_lem (suc left) y x k buf ek hy h =
    let source : y * 80 + x ≡ k + 80 = omega arith in
    let (c, ec) = get_elem?_exists buf (k + 80) (omega arith) in
    let next : suc k + 80 ≡ suc (k + 80) = omega arith in
    rw
      (
        source,
        ec,
        ← ek,
        set?-eq-set buf k c (omega arith),
        scroll_row_lem left y (suc x) (suc k) (set buf k c) (omega arith) hy
            (rw length-set (omega arith)),
        drop-set buf k (suc k + 80) c (omega arith),
        next,
        patch-set k c (take left (drop (suc (k + 80)) buf)) buf (omega arith),
        drop-eq-cons buf (k + 80) ec,
      )
      refl

scroll_rows_lem :
    (left y k : ℕ) (buf : List ℕ)
    → k ≡ (y - 1) * 80
    → 0 < y
    → k + 80 + left * 80 ≤ length buf
    → scroll_rows left y buf ≡ some (patch k (take (left * 80) (drop (k + 80) buf)) buf)
unfolding scroll_rows
scroll_rows_lem zero y k buf ek hy h = rw patch-nil refl
scroll_rows_lem (suc left) y k buf ek hy h =
    rw
      (
        scroll_row_lem 80 y 0 k buf (omega arith) hy (omega arith),
        scroll_rows_lem left (suc y) (k + 80) (patch k row buf) (omega (arith, width)) (omega arith)
            (rw (length-patch k row buf fits) (omega arith)),
        drop-patch k row buf fits (k + 80 + 80) (omega (arith, width)),
        patch-patch k row buf fits (k + 80) _ (omega (arith, width)),
        joined,
      )
      refl
  where
    row : List ℕ
    row = take 80 (drop (k + 80) buf)

    width : length row ≡ 80
    width = omega (arith, length-take 80 (drop (k + 80) buf), length-drop (k + 80) buf)

    fits : k + length row ≤ length buf
    fits = omega (arith, width)

    joined :
        row ++ take (left * 80) (drop (k + 80 + 80) buf) ≡ take (suc left * 80) (drop (k + 80) buf)
    joined =
        let split : suc left * 80 ≡ 80 + left * 80 = omega arith in
        rw (split, take-add 80 (left * 80) (drop (k + 80) buf), drop-drop 80 (k + 80) buf) refl

-- `n` cells with the same contents.
unfoldable pub blank_cells : ℕ → ℕ → List ℕ
blank_cells n blank = replicate n blank

pub length-blank_cells : (n blank : ℕ) → length (blank_cells n blank) ≡ n
unfolding blank_cells
length-blank_cells n blank = length-replicate n blank

-- The screen a line up: the top line is lost, and the bottom line is blank.
unfoldable pub scrolled : List ℕ → ℕ → List ℕ
scrolled buf blank = drop 80 buf ++ blank_cells 80 blank

moved_lem :
    (buf : List ℕ) → length buf ≡ 2000 → scroll_rows 24 1 buf ≡ some (drop 80 buf ++ drop 1920 buf)
moved_lem buf h =
    let all : take 1920 (drop 80 buf) ≡ drop 80 buf =
      take-all 1920 (drop 80 buf) (omega (arith, length-drop 80 buf)) in
    let end : 0 + length (drop 80 buf) ≡ 1920 = omega (arith, length-drop 80 buf) in
    scroll_rows_lem 24 1 0 buf (omega arith) (omega arith) (omega arith)
    ∙ ap some (unfold patch in rw (all, end) refl)

blanked_lem :
    (buf : List ℕ) (blank : ℕ)
    → length buf ≡ 2000
    → fill_cells 80 1920 0 blank (drop 80 buf ++ drop 1920 buf) ≡ some (scrolled buf blank)
unfolding scrolled
blanked_lem buf blank h =
    fill_cells_lem 80 1920 0 blank (drop 80 buf ++ drop 1920 buf) (omega (arith, size))
    ∙ ap some (unfold patch blank_cells in rw (front, back) refl)
  where
    size : length (drop 80 buf ++ drop 1920 buf) ≡ 2000
    size = omega (
      arith,
      length-append (drop 80 buf) (drop 1920 buf),
      length-drop 80 buf,
      length-drop 1920 buf,
    )

    front : take 1920 (drop 80 buf ++ drop 1920 buf) ≡ drop 80 buf
    front = take-append_eq 1920 (drop 80 buf) (drop 1920 buf) (omega (arith, length-drop 80 buf))

    back : drop 2000 (drop 80 buf ++ drop 1920 buf) ≡ []
    back = drop-all 2000 (drop 80 buf ++ drop 1920 buf) (omega (arith, size))

pub length-scrolled :
    (buf : List ℕ) (blank : ℕ) → length buf ≡ 2000 → length (scrolled buf blank) ≡ 2000
unfolding scrolled
length-scrolled buf blank h = omega (
  arith,
  length-append (drop 80 buf) (blank_cells 80 blank),
  length-drop 80 buf,
  length-blank_cells 80 blank,
)

-- On a video memory of 2000 cells `vga_scroll` stays inside of it: it moves every line up by one,
-- blanks the last line in the current colour and puts the cursor on it.
pub vga_scroll_lem :
    (v : Vga)
    → length v.buffer ≡ 2000
    → vga_scroll v
      ≡ some (record v { buffer = scrolled v.buffer (cell b' ' v.current_color); cursor_y = 24 })
unfolding vga_scroll
vga_scroll_lem v h =
    rw (moved_lem v.buffer h, ◌>>=◌, blanked_lem v.buffer (cell b' ' v.current_color) h) refl

fill_all :
    (n blank : ℕ) (buf : List ℕ)
    → length buf ≡ n
    → fill_cells n 0 0 blank buf ≡ some (blank_cells n blank)
fill_all n blank buf h =
    let end : 0 + n ≡ n = omega arith in
    fill_cells_lem n 0 0 blank buf (omega arith)
    ∙ ap some (
        unfold patch blank_cells in
        rw (length-replicate n blank, end, drop-all n buf (omega arith), append-nil) refl)

-- `vga_clear` blanks every cell in the current colour and puts the cursor at the top left.
pub vga_clear_lem :
    (v : Vga)
    → length v.buffer ≡ 2000
    → vga_clear v
      ≡ some (record v {
        buffer = blank_cells 2000 (cell b' ' v.current_color);
        cursor_x = 0;
        cursor_y = 0;
      })
unfolding vga_clear
vga_clear_lem v h = rw (fill_all 2000 (cell b' ' v.current_color) v.buffer h) refl
