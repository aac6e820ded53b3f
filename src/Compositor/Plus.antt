-- ===== src/Compositor/Plus.antt =====
-- usr/bin/de_compositor.cpp, which has the text of de_compositor.c.
use larch.Prelude.{ℕ, Option, List}
use larch.Prelude.Int.{ℤ}
use larch.Compositor as Plain

abbrev pub Window : Type 0
Window = Plain.Window

abbrev pub new_window : (w h : ℕ) (allocated : List ℕ) → Window
new_window = Plain.new_window

abbrev pub delete_window : Window → Window
delete_window = Plain.delete_window

abbrev pub move : (new_x new_y : ℤ) → Window → Window
move = Plain.move

abbrev pub draw : Window → Option (List (ℤ × ℕ))
draw = Plain.draw

abbrev pub max_windows : ℕ
max_windows = Plain.max_windows

abbrev pub Compositor : Type 0
Compositor = Plain.Compositor

abbrev pub new_compositor : Compositor
new_compositor = Plain.new_compositor

abbrev pub add_window : ℕ → Compositor → Compositor
add_window = Plain.add_window

abbrev pub render : List Window → Compositor → Option (List (ℤ × ℕ))
render = Plain.render

abbrev pub main : (allocated : List ℕ) → Option (List (ℤ × ℕ))
main = Plain.main
