-- ===== src/Compositor.antt =====
-- usr/bin/de_compositor.c: windows, and the compositor that draws them (de_compositor.cpp has the same
-- text). A pointer to a window is its number in a list of windows.
pub mod Windows
pub mod Pixels
pub mod Plus
mod Tests
use larch.Prelude.{
  ℕ, zero, suc, ◌+◌, ◌*◌, ◌/◌, ◌%◌, Option, none, some, List, [], ◌∷◌, ◌++◌, ltb, if◌then◌else◌,
  ◌>>=◌, get_elem?, set, replicate,
}
use larch.Prelude.Int.{ℤ, pos, ◌+ℤ◌, scale}
use larch.Libc.Math.{to_int}

-- Positions and numbers of words are `int`s; sizes are at least 0.
pub record Window : Type 0 where
  pub x : ℤ
  pub y : ℤ
  pub width : ℕ
  pub height : ℕ
  pub buffer : List ℕ

-- The constructor; `allocated` is what `new` gives, `w * h` words.
pub new_window : (w h : ℕ) (allocated : List ℕ) → Window
new_window w h allocated = record {
  x = pos 0;
  y = pos 0;
  width = w;
  height = h;
  buffer = allocated;
}

-- The destructor: nothing of the buffer is left to be read.
pub delete_window : Window → Window
delete_window win = record win { buffer = [] }

pub move : (new_x new_y : ℤ) → Window → Window
move new_x new_y win = record win { x = new_x; y = new_y }

-- `(y + i / width) * 1024 + x + i % width`, an index in the words at 0xB8000.
pub pixel : Window → (i : ℕ) → Option ℤ
pixel win i = do
  row ← to_int (win.y +ℤ pos (i / win.width))
  start ← to_int (scale 1024 row)
  left ← to_int (start +ℤ win.x)
  to_int (left +ℤ pos (i % win.width))

-- The stores of the loop, `left` of them from `i` on: the index and the value. `none` is a read outside
-- of the window's buffer, or an overflow.
pub draw_from : (left i : ℕ) → Window → Option (List (ℤ × ℕ))
draw_from zero i win = some []
draw_from (suc left) i win = do
  value ← get_elem? win.buffer i
  index ← pixel win i
  rest ← draw_from left (i + 1) win
  some ((index, value) ∷ rest)

pub draw : Window → Option (List (ℤ × ℕ))
draw win = do size ← to_int (pos (win.width * win.height)); draw_from (win.width * win.height) 0 win

abbrev pub max_windows : ℕ
max_windows = 64

-- A null pointer is `none`.
pub record Compositor : Type 0 where
  pub windows : List (Option ℕ)
  pub window_count : ℕ

pub new_compositor : Compositor
new_compositor = record { windows = replicate max_windows none; window_count = 0 }

pub add_window : ℕ → Compositor → Compositor
add_window win c =
    if ltb c.window_count max_windows
    then record c {
      windows = set c.windows c.window_count (some win);
      window_count = c.window_count + 1;
    }
    else c

-- `windows[i]->draw()`, unless the pointer is null.
pub draw_pointer : List Window → Option ℕ → Option (List (ℤ × ℕ))
draw_pointer heap none = some []
draw_pointer heap (some win) = get_elem? heap win >>= draw

-- The loop of `render`, for `left` windows from `i` on.
pub render_from : (left i : ℕ) → List Window → Compositor → Option (List (ℤ × ℕ))
render_from zero i heap c = some []
render_from (suc left) i heap c = do
  pointer ← get_elem? c.windows i
  drawn ← draw_pointer heap pointer
  rest ← render_from left (i + 1) heap c
  some (drawn ++ rest)

pub render : List Window → Compositor → Option (List (ℤ × ℕ))
render heap c = render_from c.window_count 0 heap c

-- Up to the loop without end.
pub main : (allocated : List ℕ) → Option (List (ℤ × ℕ))
main allocated = render (new_window 800 600 allocated ∷ []) (add_window 0 new_compositor)
