-- ===== src/Compositor/Pixels.antt =====
-- Where the words of a window are drawn.
use larch.Prelude.{
  ℕ, zero, suc, ◌+◌, ◌*◌, ◌/◌, ◌%◌, ◌^◌, ◌≤◌, ◌<◌, ◌≡◌, refl, ap, ◌∙◌, Option, some, List, [], ◌∷◌,
  arith, ◌>>=◌, get_elem?, get_elem?_exists, length,
}
use native.Mathlib.Nat.{
  mul_comm, mod-lt, mul-le-mul_right, div-eq_of_lt, mod-eq_of_lt, div-lt_iff_lt-mul,
  mul-add-div_right, mul-add-mod_self_right,
}
use larch.Prelude.Int.{ℤ, pos, negsuc, ◌+ℤ◌, pos_part, neg_part, scale}
use larch.Libc.Math.{to_int}
use larch.Compositor.{Window, pixel, draw_from, draw}

to_int-small : (a : ℤ) → pos_part a < 2 ^ 31 → neg_part a ≤ 2 ^ 31 → to_int a ≡ some a
unfolding to_int
to_int-small (pos n) p q = ground arith
to_int-small (negsuc n) p q = ground arith

-- A window at a place from where no index overflows.
pub record Near (win : Window) : Type 0 where
  pub width : win.width < 2 ^ 15
  pub height : win.height < 2 ^ 15
  pub size : win.width * win.height < 2 ^ 31
  pub right : pos_part win.x < 2 ^ 15
  pub left : neg_part win.x ≤ 2 ^ 15
  pub down : pos_part win.y < 2 ^ 15
  pub up : neg_part win.y ≤ 2 ^ 15

-- The index of the word in a row and a column of the window.
unfoldable pub place : Window → (row column : ℕ) → ℤ
place win row column = scale 1024 (win.y +ℤ pos row) +ℤ win.x +ℤ pos column

-- The size of an integer.
abbrev Within : ℤ → ℕ → Type 0
Within a n = (pos_part a ≤ n) × (neg_part a ≤ n)

add-Within : (a b : ℤ) (m n : ℕ) → Within a m → Within b n → Within (a +ℤ b) (m + n)
unfolding ◌+ℤ◌
add-Within a b m n h k = (ground arith, ground arith)

scale-Within : (a : ℤ) (n : ℕ) → Within a n → Within (scale 1024 a) (1024 * n)
unfolding scale
scale-Within a n h = (ground arith, ground arith)

to_int-Within : (a : ℤ) (n : ℕ) → n < 2 ^ 31 → Within a n → to_int a ≡ some a
to_int-Within a n small h = to_int-small a (omega arith) (omega arith)

pixel-place :
    (win : Window) (i : ℕ)
    → Near win
    → i / win.width < win.height
    → i % win.width < win.width
    → pixel win i ≡ some (place win (i / win.width) (i % win.width))
unfolding pixel place
pixel-place win i n h w =
    let row = win.y +ℤ pos (i / win.width) in
    let start = scale 1024 row in
    let shifted = start +ℤ win.x in
    let b1 : Within row (2 ^ 15 + 2 ^ 15) =
      add-Within win.y (pos (i / win.width)) (2 ^ 15) (2 ^ 15) (omega (arith, n.down), n.up)
        (omega (arith, n.height), omega arith) in
    let b2 = scale-Within row (2 ^ 15 + 2 ^ 15) b1 in
    let b3 =
      add-Within start win.x (1024 * (2 ^ 15 + 2 ^ 15)) (2 ^ 15) b2
        (omega (arith, n.right), n.left) in
    let b4 =
      add-Within shifted (pos (i % win.width)) (1024 * (2 ^ 15 + 2 ^ 15) + 2 ^ 15) (2 ^ 15) b3
        (omega (arith, n.width), omega arith) in
    let e1 = to_int-Within row _ (omega arith) b1 in
    let e2 = to_int-Within start _ (omega arith) b2 in
    let e3 = to_int-Within shifted _ (omega arith) b3 in
    rw (e1, ◌>>=◌, e2, e3) (to_int-Within _ _ (omega arith) b4)

-- The word `n` of a window at its place, if the buffer has it.
unfoldable pub word_at : Window → ℕ → Option (ℤ × ℕ)
word_at win n =
    get_elem? win.buffer n >>= (λ v. some (place win (n / win.width) (n % win.width), v))

-- The stores of a run of `left` words from `i` on.
record Stored (win : Window) (left i : ℕ) : Type 0 where
  stores : List (ℤ × ℕ)
  returns : draw_from left i win ≡ some stores
  many : length stores ≡ left
  each : (k : ℕ) → k < left → get_elem? stores k ≡ word_at win (i + k)

Stored-each :
    (win : Window) (left i v : ℕ) (rest : List (ℤ × ℕ)) (k : ℕ)
    → get_elem? win.buffer i ≡ some v
    → ((j : ℕ) → j < left → get_elem? rest j ≡ word_at win (i + 1 + j))
    → k < suc left
    → get_elem? ((place win (i / win.width) (i % win.width), v) ∷ rest) k ≡ word_at win (i + k)
unfolding word_at
Stored-each win left i v rest zero e each h =
    let here : i + 0 ≡ i = omega arith in rw (here, e, ◌>>=◌) refl
Stored-each win left i v rest (suc k) e each h =
    let there : i + 1 + k ≡ i + suc k = omega arith in each k (omega arith) ∙ ap (word_at win) there

Stored-next :
    (win : Window) (left i v : ℕ)
    → get_elem? win.buffer i ≡ some v
    → pixel win i ≡ some (place win (i / win.width) (i % win.width))
    → Stored win left (i + 1)
    → Stored win (suc left) i
unfolding draw_from
Stored-next win left i v e p r = record {
  stores = (place win (i / win.width) (i % win.width), v) ∷ r.stores;
  returns = rw (e, ◌>>=◌, p, r.returns) refl;
  many = ap suc r.many;
  each = λ k h. Stored-each win left i v r.stores k e r.each h;
}

some_width : (w h n : ℕ) → n < w * h → 0 < w
some_width zero h n lt = absurd (omega arith)
some_width (suc w) h n lt = omega arith

draw_from-Stored :
    (win : Window) (left i : ℕ)
    → Near win
    → length win.buffer ≡ win.width * win.height
    → i + left ≡ win.width * win.height
    → Stored win left i
unfolding draw_from
draw_from-Stored win zero i n size h = record {
  stores = [];
  returns = refl;
  many = refl;
  each = λ k h. absurd (omega arith);
}
draw_from-Stored win (suc left) i n size h =
    let some_columns : 0 < win.width = some_width win.width win.height i (omega arith) in
    let (v, e) = get_elem?_exists win.buffer i (omega arith) in
    let row : i / win.width < win.height =
      (div-lt_iff_lt-mul some_columns).1 (rw (mul_comm win.height win.width) (omega arith)) in
    Stored-next win left i v e (pixel-place win i n row (mod-lt i some_columns))
      (draw_from-Stored win left (i + 1) n size (omega arith))

-- The word in a row and a column.
word_at-row :
    (win : Window) (row column : ℕ)
    → column < win.width
    → word_at win (row * win.width + column)
      ≡ (get_elem? win.buffer (row * win.width + column) >>= (λ v. some (place win row column, v)))
unfolding word_at
word_at-row win row column h =
    let some_columns : 0 < win.width = omega arith in
    let r : (row * win.width + column) / win.width ≡ row =
      mul-add-div_right some_columns row column
      ∙ ap (λ q. row + q) (div-eq_of_lt h)
      ∙ omega arith in
    let c : (row * win.width + column) % win.width ≡ column =
      mul-add-mod_self_right row win.width column ∙ mod-eq_of_lt h in
    rw (r, c) refl

inside_window : (row column w h : ℕ) → row < h → column < w → row * w + column < w * h
inside_window row column w h r c =
    let most = mul-le-mul_right w r in omega (arith, most, mul_comm w h)

-- The stores of a window, as many as it has words.
pub record Draws (win : Window) : Type 0 where
  pub stores : List (ℤ × ℕ)
  pub returns : draw win ≡ some stores
  pub many : length stores ≡ win.width * win.height
  pub each :
      (row column : ℕ)
      → row < win.height
      → column < win.width
      → get_elem? stores (row * win.width + column) ≡ (
          get_elem? win.buffer (row * win.width + column) >>= (λ v. some (place win row column, v)))

-- A window that holds its words, at a place from where no index overflows, is drawn without a read
-- outside of its buffer: each of its words is stored once, row after row, and that of a row and a
-- column goes to the word 1024 * (y + row) + x + column of the screen, wherever the window was moved to.
pub draw-Draws : (win : Window) → Near win → length win.buffer ≡ win.width * win.height → Draws win
unfolding draw
draw-Draws win n size =
    let s = draw_from-Stored win (win.width * win.height) 0 n size (omega arith) in
    let fits = to_int-small (pos (win.width * win.height)) n.size (omega arith) in
    record {
      stores = s.stores;
      returns = rw (fits, ◌>>=◌) s.returns;
      many = s.many;
      each = λ row column h k.
          (let at = row * win.width + column in
            let first : 0 + at ≡ at = omega arith in
            s.each at (inside_window row column win.width win.height h k)
            ∙ ap (word_at win) first
            ∙ word_at-row win row column k);
    }
