-- ===== src/Table.antt =====
-- A SQLite table as the list of its rows in the order of its queries, and the statements that the
-- repositories run on it: an insertion in that order, an update of the row that a test picks, and the
-- checks that `_from_row` makes of the rows that a statement returns.
pub mod Updates
pub mod Checked
pub mod Finding
pub mod Amending
pub mod Keeping
use agent_panel_x.Prelude.{
  [], ◌>>=◌, ◌>>◌, Bool, Option, none, some, List, ◌∷◌, if◌then◌else◌, Result, ok,
}

module _ {ℓ} {A : Type ℓ} where
  -- `INSERT`; `before` is the order of the queries.
  unfoldable pub place : (A → A → Bool) → A → List A → List A
  place before r [] = r ∷ []
  place before r (x ∷ xs) = if before r x then r ∷ x ∷ xs else x ∷ place before r xs

  later : A → Option (A × List A) → Option (A × List A)
  later x none = none
  later x (some (r, rest)) = some (r, x ∷ rest)

  -- `UPDATE ... WHERE ... RETURNING` on the first row that the test picks: the row after the update,
  -- and the table. It is the only one where a key or an index lets the test pick one row at most.
  unfoldable pub update_first : (A → Bool) → (A → A) → List A → Option (A × List A)
  unfolding later
  update_first picks change [] = none
  update_first picks change (x ∷ xs) =
      let rest = update_first picks change xs in
      if picks x then some (change x, change x ∷ xs) else later x rest

  -- `UPDATE ... WHERE` on every row that the test picks.
  abbrev pub amend : (A → Bool) → (A → A) → A → A
  amend picks change r = if picks r then change r else r

  -- `_from_row(row) if row is not None else None` over a returned row; `check` is the constructor.
  unfoldable pub checked : (A → Result A) → Option (A × List A) → Result (Option (A × List A))
  checked check none = ok none
  checked check (some (r, rows)) = do r' ← check r; ok (some (r', rows))

  -- `tuple(self._from_row(row) for row in rows)`.
  unfoldable pub check_rows : (A → Result A) → List A → Result (List A)
  check_rows check [] = ok []
  check_rows check (r ∷ rs) = do r' ← check r; rest ← check_rows check rs; ok (r' ∷ rest)
