-- ===== src/Shell/History/Served.antt =====
-- Browsing a valid history returns a text that fits a line, and the history stays valid.
use larch.Prelude.{
  ℕ, zero, suc, ◌+◌, ◌-◌, ◌≤◌, ◌<◌, ◌≡◌, refl, ◌∙◌, Option, some, List, [], ◌∷◌, arith, length,
  take, get_or, ℕ_discrete, dec_lt, eq→==, ne→==, lt→ltb, le→ltb_false,
}
use larch.Prelude.Int.{pos}
use larch.Shell.History.{History, max_cmd_len, history_prev, history_next}
use larch.Shell.History.Add.{AllFit, IsValid, stored, entries}
use larch.Shell.History.Browse.{here, index-pos, history_prev_lem, history_next_lem}

pub record Served (result : Option (List ℕ × History)) : Type 0 where
  pub text : List ℕ
  pub history : History
  pub returns : result ≡ some (text, history)
  pub valid : IsValid history
  pub fits : length text < max_cmd_len

AllFit-take : (n : ℕ) (rows : List (List ℕ)) → AllFit rows → AllFit (take n rows)
AllFit-take zero rows h = tt
AllFit-take (suc n) [] h = tt
AllFit-take (suc n) (r ∷ rows) h = (h.0, AllFit-take n rows h.1)

AllFit-get_or :
    (rows : List (List ℕ)) (i : ℕ) → AllFit rows → length (get_or rows i []) < max_cmd_len
AllFit-get_or [] i h = omega arith
AllFit-get_or (r ∷ rows) zero h = h.0
AllFit-get_or (r ∷ rows) (suc i) h = AllFit-get_or rows i h.1

module _ (h : History) (v : IsValid h) where
  entry_fits : (i : ℕ) → length (get_or (entries h) i []) < max_cmd_len
  entry_fits i = AllFit-get_or (entries h) i (AllFit-take h.history_count h.rows v.fit)

  moved_IsValid :
      (k : ℕ) → k ≤ h.history_count → IsValid (record h { current_history_index = pos k })
  moved_IsValid k le = record { table = v.table; count = v.count; fit = v.fit; index = stored k le }

  nothing-Served : {r : Option (List ℕ × History)} → r ≡ some ([], h) → Served r
  nothing-Served e = record { text = []; history = h; returns = e; valid = v; fits = omega arith }

  entry-Served :
      {r : Option (List ℕ × History)} (i k : ℕ)
      → k ≤ h.history_count
      → r ≡ some (get_or (entries h) i [], record h { current_history_index = pos k })
      → Served r
  entry-Served i k le e = record {
    text = get_or (entries h) i [];
    history = record h { current_history_index = pos k };
    returns = e;
    valid = moved_IsValid k le;
    fits = entry_fits i;
  }

  pub history_prev-Served : Served (history_prev h)
  history_prev-Served = elim (ℕ_discrete h.history_count 0) [
    | yes z ↦ nothing-Served (history_prev_lem h v ∙ rw (eq→== h.history_count 0 z) refl)
    | no nz ↦
        entry-Served (here h v - 1) (here h v - 1) (omega (arith, (index-pos h v nz).1))
          (history_prev_lem h v ∙ rw (ne→== h.history_count 0 nz) refl)
  ]

  pub history_next-Served : Served (history_next h)
  history_next-Served = elim (ℕ_discrete h.history_count 0) [
    | yes z ↦ nothing-Served (history_next_lem h v ∙ rw (eq→== h.history_count 0 z) refl)
    | no nz ↦ elim (dec_lt (here h v + 1) h.history_count) [
      | yes inside ↦ entry-Served (here h v + 1) (here h v + 1) (omega arith) (
          history_next_lem h v
          ∙ rw (ne→== h.history_count 0 nz, lt→ltb (here h v + 1) h.history_count inside) refl)
      | no end ↦ record {
        text = [];
        history = record h { current_history_index = pos h.history_count };
        returns =
            history_next_lem h v
            ∙ rw
                (
                  ne→== h.history_count 0 nz,
                  le→ltb_false (here h v + 1) h.history_count (omega arith),
                )
                refl;
        valid = moved_IsValid h.history_count (omega arith);
        fits = omega arith;
      }
    ]
  ]
