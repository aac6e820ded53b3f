-- ===== src/Compositor/Windows.antt =====
-- Which windows are drawn, and where.
use larch.Prelude.{
  ℕ, suc, ◌+◌, ◌-◌, ◌≤◌, ◌<◌, ◌≡◌, refl, sym, ap, ◌∙◌, true, false, Option, none, some, List, [],
  ◌∷◌, ◌++◌, arith, ltb, ◌>>=◌, map, append-nil, append_assoc, length, get_elem?, set, replicate,
  take, take-all, take-append, subst, dec_lt,
}
use larch.Prelude.Int.{ℤ}
use larch.Compositor.{
  Window, Compositor, new_compositor, add_window, draw_pointer, render_from, render,
}

-- The windows of a list, added in order.
unfoldable pub add_all : List ℕ → Compositor → Compositor
add_all [] c = c
add_all (win ∷ wins) c = add_all wins (add_window win c)

-- The stores of the windows of a list, in order.
unfoldable pub draw_all : List Window → List ℕ → Option (List (ℤ × ℕ))
draw_all heap [] = some []
draw_all heap (win ∷ wins) = do
  drawn ← draw_pointer heap (some win)
  rest ← draw_all heap wins
  some (drawn ++ rest)

-- A compositor that holds exactly these windows.
abbrev holding : List ℕ → Compositor
holding wins = record {
  windows = map some wins ++ replicate (64 - length wins) none;
  window_count = length wins;
}

set-end :
    (wins : List ℕ) (n win : ℕ)
    → set (map some wins ++ replicate (suc n) none) (length wins) (some win)
      ≡ map some (wins ++ win ∷ []) ++ replicate n none
set-end [] n win = refl
set-end (w ∷ wins) n win = ap (λ l. some w ∷ l) (set-end wins n win)

length-add : (wins : List ℕ) (win : ℕ) → length (wins ++ win ∷ []) ≡ length wins + 1
length-add [] win = refl
length-add (w ∷ wins) win = ground (arith, length-add wins win)

add_window-holding :
    (wins : List ℕ) (win : ℕ)
    → length wins < 64
    → add_window win (holding wins) ≡ holding (wins ++ win ∷ [])
unfolding add_window
add_window-holding wins win h =
    let room : 64 - length wins ≡ suc (64 - length (wins ++ win ∷ [])) =
      omega (arith, length-add wins win) in
    let few : ltb (length wins) 64 ≡ true = ground arith in
    rw (few, room, set-end wins (64 - length (wins ++ win ∷ [])) win, ← length-add wins win) refl

add_window-full :
    (wins : List ℕ) (win : ℕ) → length wins ≡ 64 → add_window win (holding wins) ≡ holding wins
unfolding add_window
add_window-full wins win h = let full : ltb (length wins) 64 ≡ false = ground arith in rw full refl

take_full : (wins rest : List ℕ) → length wins ≡ 64 → take 64 (wins ++ rest) ≡ wins
take_full wins rest h = subst (λ n. take n (wins ++ rest) ≡ wins) h (take-append wins rest)

add_all-holding :
    (wins rest : List ℕ)
    → length wins ≤ 64
    → add_all rest (holding wins) ≡ holding (take 64 (wins ++ rest))
unfolding add_all
add_all-holding wins [] h =
    let same : take 64 (wins ++ []) ≡ wins = ap (take 64) (append-nil wins) ∙ take-all 64 wins h in
    ap holding (sym same)
add_all-holding wins (win ∷ rest) h = elim (dec_lt (length wins) 64) [
  | yes room ↦
      ap (add_all rest) (add_window-holding wins win room)
      ∙ add_all-holding (wins ++ win ∷ []) rest (omega (arith, length-add wins win))
      ∙ ap (λ l. holding (take 64 l)) (append_assoc wins (win ∷ []) rest)
  | no full ↦
      let all : length wins ≡ 64 = omega arith in
      ap (add_all rest) (add_window-full wins win all)
      ∙ add_all-holding wins rest h
      ∙ ap holding (take_full wins rest all ∙ sym (take_full wins (win ∷ rest) all))
]

pointer_at :
    (before after : List ℕ) (win : ℕ) (nulls : List (Option ℕ))
    → get_elem? (map some (before ++ win ∷ after) ++ nulls) (length before) ≡ some (some win)
pointer_at [] after win nulls = refl
pointer_at (w ∷ before) after win nulls = pointer_at before after win nulls

render_from-holding :
    (heap : List Window) (before after : List ℕ) (c : Compositor) (nulls : List (Option ℕ))
    → c.windows ≡ map some (before ++ after) ++ nulls
    → render_from (length after) (length before) heap c ≡ draw_all heap after
unfolding render_from draw_all
render_from-holding heap before [] c nulls e = refl
render_from-holding heap before (win ∷ after) c nulls e =
    let pointer : get_elem? c.windows (length before) ≡ some (some win) =
      ap (λ l. get_elem? l (length before)) e ∙ pointer_at before after win nulls in
    let shifted = sym (append_assoc before (win ∷ []) after) in
    let rest =
      render_from-holding heap (before ++ win ∷ []) after c nulls
        (e ∙ ap (λ l. map some l ++ nulls) shifted) in
    rw (pointer, ◌>>=◌, ← length-add before win, rest) refl

-- A new compositor to which windows are added draws the first 64 of them, in the order in which they were
-- added, and ignores the others.
pub render-add_all :
    (heap : List Window) (wins : List ℕ)
    → render heap (add_all wins new_compositor) ≡ draw_all heap (take 64 wins)
unfolding render new_compositor
render-add_all heap wins =
    let shown = take 64 wins in
    ap (render heap) (add_all-holding [] wins (omega arith))
    ∙ render_from-holding heap [] shown (holding shown) (replicate (64 - length shown) none) refl
