-- ===== src/Drivers/Vga/Session.antt =====
-- Any sequence of calls of the display, against the terminal.
use larch.Prelude.{
  ℕ, ◌*◌, ◌%◌, ◌^◌, ◌≡◌, refl, ap, Option, some, List, [], ◌∷◌, map, arith, ◌>>=◌, bit_or,
}
use mathlib.Core.Path.{subst, fun_ext}
use larch.Console.{Event, put, color, clear}
use larch.Drivers.Vga.{Vga, vga_set_color, vga_putchar, vga_writestring, vga_clear, run, cell}
use larch.Drivers.Vga.Scroll.{vga_clear_lem, blank_cells, length-blank_cells}
use larch.Drivers.Vga.Screen.{Terminal, type_char, view, IsValid}
use larch.Drivers.Vga.Putchar.{vga_putchar-Shows}

-- What a call does to the terminal.
unfoldable pub play_one : Terminal → Event → Terminal
play_one t (put c) = type_char t c
play_one t (color fg bg) = record t { colour = bit_or (bg * 2 ^ 4) fg % 2 ^ 8 }
play_one t clear = record t { cells = blank_cells 2000 (cell b' ' t.colour); at = 0 }

unfoldable pub play : Terminal → List Event → Terminal
play t [] = t
play t (e ∷ es) = play (play_one t e) es

-- The calls end with a valid screen that shows the terminal `t`.
pub record Reaches (t : Terminal) (result : Option Vga) : Type 0 where
  pub screen : Vga
  pub returns : result ≡ some screen
  pub valid : IsValid screen
  pub same : view screen ≡ t

Reaches-bind :
    (t : Terminal) (m : Option Vga) (k : Vga → Option Vga) (w : Vga)
    → m ≡ some w
    → Reaches t (k w)
    → Reaches t (m >>= k)
Reaches-bind t m k w e r = rw e r

-- From a valid screen no sequence of calls leaves the video memory or spoils the screen: it
-- reaches a valid screen that shows what the terminal shows after the same calls.
pub run-Reaches : (es : List Event) (v : Vga) → IsValid v → Reaches (play (view v) es) (run v es)
unfolding run play play_one vga_set_color
run-Reaches [] v h = record { screen = v; returns = refl; valid = h; same = refl }
run-Reaches (put c ∷ es) v h =
    let s = vga_putchar-Shows v c h in
    Reaches-bind _ (vga_putchar v c) (λ w. run w es) s.screen s.returns
      (subst (λ t. Reaches (play t es) (run s.screen es)) s.same (run-Reaches es s.screen s.valid))
run-Reaches (color fg bg ∷ es) v h = run-Reaches es (vga_set_color v fg bg) (ground arith)
run-Reaches (clear ∷ es) v h =
    let blank = cell b' ' v.current_color in
    let w : Vga = record v { buffer = blank_cells 2000 blank; cursor_x = 0; cursor_y = 0 } in
    Reaches-bind _ (vga_clear v) (λ u. run u es) w (vga_clear_lem v h.cells)
      (run-Reaches es w (omega (arith, length-blank_cells 2000 blank)))

-- `vga_writestring` is the run of one `vga_putchar` for each byte.
pub vga_writestring-run : (v : Vga) (s : List ℕ) → vga_writestring v s ≡ run v (map put s)
unfolding vga_writestring run
vga_writestring-run v [] = refl
vga_writestring-run v (c ∷ s) =
    ap (λ (k : Vga → Option Vga). vga_putchar v c >>= k) (fun_ext λ w. vga_writestring-run w s)
