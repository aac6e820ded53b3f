-- ===== src/Compositor/Tests.antt =====
-- Two windows, one of them moved.
use larch.Prelude.{◌≡◌, refl, arith, List, [], ◌∷◌, take}
use larch.Prelude.Int.{pos, negsuc, ◌+ℤ◌, scale}
use larch.Compositor.{Window, new_window, move, new_compositor, render}
use larch.Compositor.Pixels.{Draws, place, draw-Draws}
use larch.Compositor.Windows.{add_all, draw_all, render-add_all}

abbrev heap : List Window
heap = new_window 2 1 (7 ∷ 8 ∷ []) ∷ move (pos 3) (negsuc 0) (new_window 1 1 (9 ∷ [])) ∷ []

render-add_all_example :
    render heap (add_all (1 ∷ 0 ∷ []) new_compositor) ≡ draw_all heap (take 64 (1 ∷ 0 ∷ []))
render-add_all_example = render-add_all heap (1 ∷ 0 ∷ [])

abbrev moved : Window
moved = move (pos 3) (negsuc 0) (new_window 2 2 (7 ∷ 8 ∷ 9 ∷ 10 ∷ []))

draw-Draws_example : Draws moved
unfolding move new_window
draw-Draws_example =
    draw-Draws moved
      (record {
        width = omega arith;
        height = omega arith;
        size = omega arith;
        right = omega arith;
        left = omega arith;
        down = omega arith;
        up = omega arith;
      })
      refl

-- The second row of the window is the first one of the screen.
moved-last : place moved 1 1 ≡ pos 4
unfolding place move new_window ◌+ℤ◌ scale
moved-last = refl
