-- ===== src/Shell/History/Add.antt =====
-- `history_add` keeps the last twenty commands.
use larch.Prelude.{
  ℕ, zero, suc, ◌+◌, ◌-◌, ◌≤◌, ◌<◌, ◌≡◌, refl, ap, ◌∙◌, Option, some, List, [], ◌∷◌, ◌++◌, arith,
  ◌>>=◌, length, get_elem?, set, set?-eq-set, length-set, take, drop, get_elem?_exists, take-set,
  take-all, drop-set, drop-eq-cons, patch, patch-nil, patch-set, lt→ltb, subst, sym, dec_lt,
  drop-append_le, length-patch, take-patch, length-append, length-take, length-drop,
}
use larch.Prelude.Int.{ℤ, pos, negsuc}
use larch.Shell.History.{
  History, copy_row, shift_rows, browse_end, history_add, max_history, max_cmd_len,
}

-- Every text fits a row with its NUL.
abbrev pub AllFit : List (List ℕ) → Type 0
AllFit [] = Unit {0}
AllFit (r ∷ rs) = (length r < max_cmd_len) × AllFit rs

-- The index browses the stored commands, or stands behind them; before the first command it is -1.
pub data IsIndex (count : ℕ) : ℤ → Type 0 where
  stored : (i : ℕ) → i ≤ count → IsIndex count (pos i)
  fresh : count ≡ 0 → IsIndex count (negsuc 0)

pub record IsValid (h : History) : Type 0 where
  pub table : length h.rows ≡ max_history
  pub count : h.history_count ≤ max_history
  pub fit : AllFit h.rows
  pub index : IsIndex h.history_count h.current_history_index

-- The stored commands, the oldest first.
abbrev pub entries : History → List (List ℕ)
entries h = take h.history_count h.rows

AllFit-set :
    (rows : List (List ℕ)) (i : ℕ) (r : List ℕ)
    → AllFit rows
    → length r < max_cmd_len
    → AllFit (set rows i r)
AllFit-set [] i r h k = tt
AllFit-set (x ∷ xs) zero r h k = (k, h.1)
AllFit-set (x ∷ xs) (suc i) r h k = (h.0, AllFit-set xs i r h.1 k)

pub AllFit-get :
    (rows : List (List ℕ)) (i : ℕ) {r : List ℕ}
    → AllFit rows
    → get_elem? rows i ≡ some r
    → length r < max_cmd_len
AllFit-get [] i h e = cc
AllFit-get (x ∷ xs) zero h e = ground arith
AllFit-get (x ∷ xs) (suc i) h e = AllFit-get xs i h.1 e

copy_row-set :
    (rows : List (List ℕ)) (i : ℕ) (r : List ℕ)
    → i < length rows
    → length r < max_cmd_len
    → copy_row rows i r ≡ some (set rows i r)
unfolding copy_row
copy_row-set rows i r h k = rw (lt→ltb (length r) 256 k) (set?-eq-set rows i r h)

shift_rows-suc :
    (left k : ℕ) (rows : List (List ℕ)) (row : List ℕ)
    → get_elem? rows (suc k) ≡ some row
    → k < length rows
    → length row < max_cmd_len
    → shift_rows (suc left) (suc k) rows ≡ shift_rows left (suc (suc k)) (set rows k row)
unfolding shift_rows
shift_rows-suc left k rows row e h f =
    let at : suc k - 1 ≡ k = omega arith in rw (e, ◌>>=◌, at, copy_row-set rows k row h f) refl

shift_moved :
    (left k : ℕ) (rows : List (List ℕ)) (row : List ℕ)
    → get_elem? rows (suc k) ≡ some row
    → k < length rows
    → patch (suc k) (take left (drop (suc (suc k)) (set rows k row))) (set rows k row)
      ≡ patch k (take (suc left) (drop (suc k) rows)) rows
shift_moved left k rows row e h =
    rw
      (
        drop-set rows k (suc (suc k)) row (omega arith),
        patch-set k row (take left (drop (suc (suc k)) rows)) rows h,
        drop-eq-cons rows (suc k) e,
      )
      refl

-- The loop moves the rows from `i` on one place down.
shift_rows_lem :
    (left k : ℕ) (rows : List (List ℕ))
    → suc k + left ≤ length rows
    → AllFit rows
    → (shift_rows left (suc k) rows ≡ some (patch k (take left (drop (suc k) rows)) rows))
      × AllFit (patch k (take left (drop (suc k) rows)) rows)
shift_rows_lem zero k rows h f = (unfold shift_rows in rw patch-nil refl, rw patch-nil f)
shift_rows_lem (suc left) k rows h f =
    let (row, er) = get_elem?_exists rows (suc k) (omega arith) in
    let fits = AllFit-get rows (suc k) f er in
    let ih =
      shift_rows_lem left (suc k) (set rows k row) (rw length-set (omega arith))
        (AllFit-set rows k row f fits) in
    let moved = shift_moved left k rows row er (omega arith) in
    (
      shift_rows-suc left k rows row er (omega arith) fits ∙ (ih.0 ∙ ap some moved),
      subst AllFit moved ih.1,
    )

-- The last twenty of a list.
abbrev pub last_twenty : List (List ℕ) → List (List ℕ)
last_twenty xs = drop (length xs - 20) xs

-- The call succeeds with a valid history whose commands are `kept`, and browsing starts behind them.
pub record Added (kept : List (List ℕ)) (result : Option History) : Type 0 where
  pub history : History
  pub returns : result ≡ some history
  pub valid : IsValid history
  pub same : entries history ≡ kept
  pub behind : history.current_history_index ≡ pos (length kept)

module _ (h : History) (cmd : List ℕ) (v : IsValid h) (short : length cmd < max_cmd_len) where
  length-entries : length (entries h) ≡ h.history_count
  length-entries = omega (arith, length-take h.history_count h.rows, v.count, v.table)

  room_left : h.history_count < 20 → last_twenty (entries h ++ (cmd ∷ [])) ≡ entries h ++ (cmd ∷ [])
  room_left free =
      let none_lost : length (entries h ++ (cmd ∷ [])) - 20 ≡ 0 =
        omega (arith, length-append (entries h) (cmd ∷ []), length-entries) in
      ap (λ (k : ℕ). drop k (entries h ++ (cmd ∷ []))) none_lost

  add_free :
      h.history_count < 20 → Added (last_twenty (entries h ++ (cmd ∷ []))) (history_add h cmd)
  add_free free = record {
    history = record {
      rows = set h.rows h.history_count cmd;
      history_count = h.history_count + 1;
      current_history_index = pos (h.history_count + 1);
    };
    returns =
        unfold history_add browse_end in
        ground (arith, copy_row-set h.rows h.history_count cmd (omega (arith, v.table)) short);
    valid = record {
      table = length-set h.rows h.history_count cmd ∙ v.table;
      count = omega arith;
      fit = AllFit-set h.rows h.history_count cmd v.fit short;
      index = stored (h.history_count + 1) (omega arith);
    };
    same =
        ap (λ (k : ℕ). take k (set h.rows h.history_count cmd)) {y = suc h.history_count}
          (omega arith)
        ∙ (take-set h.rows h.history_count cmd (omega (arith, v.table)) ∙ sym (room_left free));
    behind = ap pos (
        omega (
          arith,
          ap length (room_left free),
          length-append (entries h) (cmd ∷ []),
          length-entries,
        ));
  }

  oldest_lost :
      h.history_count ≡ 20 → last_twenty (entries h ++ (cmd ∷ [])) ≡ drop 1 h.rows ++ (cmd ∷ [])
  oldest_lost full =
      let one : length (h.rows ++ (cmd ∷ [])) - 20 ≡ 1 =
        omega (arith, length-append h.rows (cmd ∷ []), v.table) in
      rw (take-all h.history_count h.rows (omega (arith, v.table))) (
        ap (λ (k : ℕ). drop k (h.rows ++ (cmd ∷ []))) one
        ∙ drop-append_le 1 h.rows (cmd ∷ []) (omega (arith, v.table)))

  -- The table after the rows have moved.
  abbrev shifted : List (List ℕ)
  shifted = patch 0 (take 19 (drop 1 h.rows)) h.rows

  length-moved : length (take 19 (drop 1 h.rows)) ≡ 19
  length-moved = omega (arith, length-take 19 (drop 1 h.rows), length-drop 1 h.rows, v.table)

  length-shifted : length shifted ≡ 20
  length-shifted =
      length-patch 0 (take 19 (drop 1 h.rows)) h.rows (omega (arith, length-moved, v.table))
      ∙ v.table

  take-shifted : take 19 shifted ≡ drop 1 h.rows
  take-shifted =
      take-patch 0 (take 19 (drop 1 h.rows)) h.rows (omega (arith, length-moved, v.table)) 19
        (omega (arith, length-moved))
      ∙ take-all 19 (drop 1 h.rows) (omega (arith, length-drop 1 h.rows, v.table))

  add_full :
      h.history_count ≡ 20 → Added (last_twenty (entries h ++ (cmd ∷ []))) (history_add h cmd)
  add_full full =
      let moved = shift_rows_lem 19 0 h.rows (omega (arith, v.table)) v.fit in
      record {
        history = record {
          rows = set shifted 19 cmd;
          history_count = h.history_count;
          current_history_index = pos h.history_count;
        };
        returns =
            unfold history_add browse_end in
            ground
              (arith, moved.0, copy_row-set shifted 19 cmd (omega (arith, length-shifted)) short);
        valid = record {
          table = length-set shifted 19 cmd ∙ length-shifted;
          count = v.count;
          fit = AllFit-set shifted 19 cmd moved.1 short;
          index = stored h.history_count (omega arith);
        };
        same =
            ap (λ (k : ℕ). take k (set shifted 19 cmd)) full
            ∙ (take-set shifted 19 cmd (omega (arith, length-shifted))
                ∙ (ap (λ (xs : List (List ℕ)). xs ++ (cmd ∷ [])) take-shifted
                    ∙ sym (oldest_lost full)));
        behind = ap pos (
            omega (
              arith,
              full,
              ap length (oldest_lost full),
              length-append (drop 1 h.rows) (cmd ∷ []),
              length-drop 1 h.rows,
              v.table,
            ));
      }

-- Adding a command that fits a row to a valid history stores it behind the others, drops the
-- oldest one when there were twenty, stays inside of the table, keeps the history valid and ends
-- browsing.
pub history_add-Added :
    (h : History) (cmd : List ℕ)
    → IsValid h
    → length cmd < max_cmd_len
    → Added (last_twenty (entries h ++ (cmd ∷ []))) (history_add h cmd)
history_add-Added h cmd v short = elim (dec_lt h.history_count 20) [
  | yes free ↦ add_free h cmd v short free
  | no full ↦ add_full h cmd v short (omega (arith, v.count))
]
