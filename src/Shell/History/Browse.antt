-- ===== src/Shell/History/Browse.antt =====
-- `history_prev` and `history_next` walk over the stored commands.
use larch.Prelude.{
  ℕ, zero, suc, ◌+◌, ◌-◌, ◌≤◌, ◌<◌, ◌≡◌, refl, ap, ◌∙◌, sym, ◌≢◌, some, none, [], ◌==◌, arith, ltb,
  if◌then◌else◌, ℕ_discrete, dec_lt, eq→==, get_or, get_elem?-take, get_elem?-eq-get_or,
  length-take,
}
use larch.Prelude.Int.{ℤ, pos, pos_part}
use larch.Shell.History.{History, row_at, step_back, step_forward, history_prev, history_next}
use larch.Shell.History.Add.{IsValid, IsIndex, stored, fresh, entries}

step_back-pos : (n : ℕ) → step_back (pos n) ≡ pos (n - 1)
step_back-pos zero = unfold step_back in refl
step_back-pos (suc n) = unfold step_back in ap pos (omega arith)

step_forward-pos :
    (n count : ℕ)
    → step_forward (pos n) count ≡ (if ltb (n + 1) count then some (pos (n + 1)) else none)
unfolding step_forward
step_forward-pos n count = refl

module _ (h : History) (v : IsValid h) where
  -- Where browsing stands; 0 before the first command.
  abbrev pub here : ℕ
  here = pos_part h.current_history_index

  pub index-pos :
      h.history_count ≢ 0 → (h.current_history_index ≡ pos here) × (here ≤ h.history_count)
  index-pos some_stored = inversion h.current_history_index v.index
    where
      inversion :
          (i : ℤ)
          → IsIndex h.history_count i
          → (i ≡ pos (pos_part i)) × (pos_part i ≤ h.history_count)
      inversion i (stored n le) = (refl, le)
      inversion i (fresh z) = absurd (some_stored z)

  -- A stored row, through the table and through the list of commands.
  row_at-entries :
      (i : ℕ) → i < h.history_count → row_at h.rows (pos i) ≡ some (get_or (entries h) i [])
  unfolding row_at
  row_at-entries i lt =
      sym (get_elem?-take h.history_count i h.rows lt)
      ∙ get_elem?-eq-get_or (entries h) i []
          (omega (arith, length-take h.history_count h.rows, v.count, v.table))

  -- In a valid history `history_prev` returns the command before the one that browsing stands at,
  -- and stays at the first one; an empty history returns the empty text. Nothing is read outside
  -- of the stored commands.
  pub history_prev_lem : history_prev h ≡ (
      if h.history_count == 0
      then some ([], h)
      else some
          (get_or (entries h) (here - 1) [], record h { current_history_index = pos (here - 1) }))
  unfolding history_prev
  history_prev_lem = elim (ℕ_discrete h.history_count 0) [
    | yes z ↦ rw (eq→== h.history_count 0 z) refl
    | no nz ↦
        let at = index-pos nz in
        ground (arith, at, step_back-pos here, row_at-entries (here - 1) (omega (arith, at.1)))
  ]

  -- In a valid history `history_next` returns the command after the one that browsing stands at;
  -- from the last one on it returns the empty text and leaves browsing behind the commands. An
  -- empty history returns the empty text and is left as it was.
  pub history_next_lem : history_next h ≡ (
      if h.history_count == 0
      then some ([], h)
      else (if ltb (here + 1) h.history_count
          then some (
            get_or (entries h) (here + 1) [],
            record h { current_history_index = pos (here + 1) },
          )
          else some ([], record h { current_history_index = pos h.history_count })))
  unfolding history_next
  history_next_lem = elim (ℕ_discrete h.history_count 0) [
    | yes z ↦ rw (eq→== h.history_count 0 z) refl
    | no nz ↦
        let at = index-pos nz in
        elim (dec_lt (here + 1) h.history_count) [
          | yes inside ↦
              ground
                (arith, at, step_forward-pos here h.history_count, row_at-entries (here + 1) inside)
          | no end ↦ ground (arith, at, step_forward-pos here h.history_count)
        ]
  ]

-- In a valid history, from any stored command but the first, going back one command and forward
-- again returns to the same command and the same history.
pub next-prev :
    (h : History) (i : ℕ)
    → IsValid h
    → h.current_history_index ≡ pos (suc i)
    → suc i < h.history_count
    → (back : History) × (history_prev h ≡ some (get_or (entries h) i [], back))
      × (history_next back ≡ some (get_or (entries h) (suc i) [], h))
next-prev h i v e lt =
    let back : History = record h { current_history_index = pos i } in
    let w : IsValid back = record {
      table = v.table;
      count = v.count;
      fit = v.fit;
      index = stored i (omega arith);
    } in
    (
      back,
      ground (arith, history_prev_lem h v, ap pos_part e),
      ground (arith, history_next_lem back w),
    )
