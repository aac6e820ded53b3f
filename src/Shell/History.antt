-- ===== src/Shell/History.antt =====
-- kernel/shell/command_history.c. A row of `history` is the text in it, up to its NUL.
-- `none` is undefined behaviour: a row that does not hold the text with its NUL, or an access
-- outside of the table.
pub mod Add
pub mod Browse
pub mod Served
mod Tests
use larch.Prelude.{
  ℕ, zero, suc, ◌+◌, ◌-◌, Option, none, some, List, [], ◌∷◌, ◌==◌, ltb, if◌then◌else◌, ◌>>=◌,
  length, get_elem?, set?, replicate, take,
}
use larch.Prelude.Int.{ℤ, pos, negsuc}

abbrev pub max_history : ℕ
max_history = 20

abbrev pub max_cmd_len : ℕ
max_cmd_len = 256

pub record History : Type 0 where
  pub rows : List (List ℕ)
  pub history_count : ℕ
  pub current_history_index : ℤ

-- The state before the first call: the static table is zero, so that every row is the empty text.
unfoldable pub initial : History
initial = record {
  rows = replicate max_history [];
  history_count = 0;
  current_history_index = negsuc 0;
}

-- `strcpy(history[i], cmd)`
pub copy_row : List (List ℕ) → ℕ → List ℕ → Option (List (List ℕ))
copy_row rows i cmd = if ltb (length cmd) max_cmd_len then set? rows i cmd else none

-- `for (i = 1; i < MAX_HISTORY; i++) strcpy(history[i-1], history[i]);` from `i`, `left` rounds left.
pub shift_rows : ℕ → ℕ → List (List ℕ) → Option (List (List ℕ))
shift_rows zero i rows = some rows
shift_rows (suc left) i rows =
    get_elem? rows i >>= λ row. copy_row rows (i - 1) row >>= λ rows'. shift_rows left (suc i) rows'

-- The index after `history_add`.
pub browse_end : ℕ → ℤ
browse_end count = if ltb max_history count then pos max_history else pos count

pub history_add : History → List ℕ → Option History
history_add h cmd =
    if ltb h.history_count max_history
    then (copy_row h.rows h.history_count cmd >>= λ rows. some (record {
      rows = rows;
      history_count = h.history_count + 1;
      current_history_index = browse_end (h.history_count + 1);
    }))
    else (shift_rows (max_history - 1) 1 h.rows >>= λ shifted.
        copy_row shifted (max_history - 1) cmd >>= λ rows. some (record {
          rows = rows;
          history_count = h.history_count;
          current_history_index = browse_end h.history_count;
        }))

-- `history[index]`
pub row_at : List (List ℕ) → ℤ → Option (List ℕ)
row_at rows (pos i) = get_elem? rows i
row_at rows (negsuc i) = none

-- `if (current_history_index > 0) current_history_index--;`
pub step_back : ℤ → ℤ
step_back (pos zero) = pos zero
step_back (pos (suc i)) = pos i
step_back (negsuc i) = negsuc i

pub history_prev : History → Option (List ℕ × History)
history_prev h =
    if h.history_count == 0
    then some ([], h)
    else (row_at h.rows (step_back h.current_history_index) >>= λ row.
        some (row, record h { current_history_index = step_back h.current_history_index }))

-- `current_history_index < history_count - 1`, at a count that is not zero.
pub step_forward : ℤ → ℕ → Option ℤ
step_forward (pos i) count = if ltb (i + 1) count then some (pos (i + 1)) else none
step_forward (negsuc zero) count = some (pos 0)
step_forward (negsuc (suc i)) count = some (negsuc i)

pub history_next : History → Option (List ℕ × History)
history_next h =
    if h.history_count == 0
    then some ([], h)
    else elim (step_forward h.current_history_index h.history_count) [
      | some i ↦ row_at h.rows i >>= λ row. some (row, record h { current_history_index = i })
      | none ↦ some ([], record h { current_history_index = pos h.history_count })
    ]
