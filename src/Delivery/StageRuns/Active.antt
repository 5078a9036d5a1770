-- ===== src/Delivery/StageRuns/Active.antt =====
-- The active rows of a Feature under the operations of the StageRun table.
use agent_panel_x.Prelude.{
  All, raising, ℕ, ◌≤◌, String, ◌≡◌, sym, ◌∙◌, inl, inr, false, Option, none, some, List, map,
  arith, eq_iff, length, filter, count, ok, Result-cases,
}
use agent_panel_x.Delivery.Models.{StageRunStatus, StageRun, check_stage_run, is_active_status}
use agent_panel_x.Delivery.StageRuns.{
  row_before, is_active_of, get_active, insert, claimed, finished, claim_next, finish, fail_row,
  fail_active,
}
use agent_panel_x.Delivery.Models.Checks.{check_stage_run-identity}
use agent_panel_x.Table.{check_rows}
use agent_panel_x.Table.Updates.{
  count-place, find-none-count, update_first-count, amend-clears, length-amended,
}
use agent_panel_x.Table.Checked.{Passes, checked-some, checked-raised, check_rows-All}

abbrev pub active_count : String → List StageRun → ℕ
active_count triage_id = count (is_active_of triage_id)

-- An inserted row leaves every Feature with at most one active row, if each had at most one before:
-- the index refuses the second one.
pub insert-one_active :
    (r : StageRun) (rows rows' : List StageRun) (triage_id : String)
    → active_count triage_id rows ≤ 1
    → insert r rows ≡ ok rows'
    → active_count triage_id rows' ≤ 1
unfolding raising insert
insert-one_active r rows rows' t h e = ground (
  arith,
  count-place row_before (is_active_of t) r rows,
  find-none-count (is_active_of r.triage_id) rows,
  eq_iff r.triage_id t,
)

-- A claim makes a queued row running, so it adds no active row to any Feature.
pub claim_next-one_active :
    (triage_id : String) (started_at lease_expires_at : ℕ) (rows rows' : List StageRun)
    (r : StageRun)
    → claim_next triage_id started_at lease_expires_at rows ≡ ok (some (r, rows'))
    → (t : String) → active_count t rows' ≤ active_count t rows
unfolding claim_next
claim_next-one_active triage_id a b rows rows' r e t =
    let (found, _) = checked-some check_stage_run check_stage_run-identity _ r rows' e in
    update_first-count (is_active_of t) _ (claimed a b) (λ x picked active. ground arith) rows rows'
      r found

-- A finished row is active no more.
pub finish-one_active :
    (stage_run_id : String) (status : StageRunStatus) (output failure : Option String)
    (finished_at : ℕ) (rows rows' : List StageRun) (r : StageRun)
    → finish stage_run_id status output failure finished_at rows ≡ ok (r, rows')
    → is_active_status status ≡ false
    → (t : String) → active_count t rows' ≤ active_count t rows
unfolding finish
finish-one_active id status output failure finished_at rows rows' r e terminal t =
    let (found, _) = checked-raised check_stage_run check_stage_run-identity _ _ r rows' e in
    update_first-count (is_active_of t) _ (finished status output failure finished_at)
      (λ x picked active. ground arith) rows rows' r found

pub fail_active-parts :
    (t : String) (n : ℕ) (failure : String) (rows failed_rows rows' : List StageRun)
    → fail_active t n failure rows ≡ ok (failed_rows, rows')
    → (failed_rows ≡ map (fail_row t failure n) (filter (is_active_of t) rows))
      × (rows' ≡ map (fail_row t failure n) rows)
      × All (Passes check_stage_run) (map (fail_row t failure n) (filter (is_active_of t) rows))
unfolding raising fail_active
fail_active-parts t n failure rows failed_rows rows' h =
    elim (Result-cases
      (check_rows check_stage_run (map (fail_row t failure n) (filter (is_active_of t) rows)))) [
        | inl (rs, e) ↦
            (let (same, valid) = check_rows-All check_stage_run check_stage_run-identity _ rs e in
              let given : rs ≡ failed_rows = ground (arith, e) in
              (sym given ∙ same, ground (arith, e), valid))
        | inr (x, e) ↦ absurd (ground (arith, e))
      ]

-- After `fail_active` the Feature has no active row; what is returned is one FAILED row for each row
-- that was active, with the failure and the time; and the table has as many rows as before.
pub fail_active-clears :
    (triage_id : String) (finished_at : ℕ) (failure : String)
    (rows failed_rows rows' : List StageRun)
    → fail_active triage_id finished_at failure rows ≡ ok (failed_rows, rows')
    → (get_active triage_id rows' ≡ none)
      × (length failed_rows ≡ active_count triage_id rows)
      × (failed_rows
          ≡ map (fail_row triage_id failure finished_at) (filter (is_active_of triage_id) rows))
fail_active-clears t n f rows failed_rows rows' h =
    let (list, table, _) = fail_active-parts t n f rows failed_rows rows' h in
    (
      rw table (amend-clears (is_active_of t) _ (λ r active. ground arith) rows),
      rw list (length-amended (is_active_of t) (fail_row t f n) rows),
      list,
    )
