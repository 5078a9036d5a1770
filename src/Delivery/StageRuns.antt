-- ===== src/Delivery/StageRuns.antt =====
-- The StageRun table (src/agentplanex/infrastructure/sqlite/repositories/stage_run.py), with the primary key
-- and the unique index on the active row of a Feature (src/agentplanex/infrastructure/sqlite/schema.py).
-- The rows are kept in the order of every query, `created_at, stage_run_id`.
pub mod Active
pub mod Rows
pub mod Claim
pub mod Reachable
use Prim.Native.String.{compare}
use Prim.Native.Nat.{Ordering, compare as compare_nat}
use agent_panel_x.Prelude.{
  ◌>>=◌, ◌>>◌, ℕ, String, Bool, true, false, not, ◌&&◌, Option, none, some, List, map, ◌==◌,
  is_some, filter, find, is_blank, value_error, lookup_error, integrity_error, Result, ok, raise_if,
  or_raise,
}
use agent_panel_x.Table.{place, update_first, amend, checked, check_rows}
use agent_panel_x.Delivery.Models.{
  StageRunStatus, running, succeeded, failed, StageRun, check_stage_run, is_active_status,
  is_queued, is_running,
}

-- `ORDER BY created_at, stage_run_id`: whether the first row comes before the second.
unfoldable pub row_before : StageRun → StageRun → Bool
row_before a b = elim (compare_nat a.created_at b.created_at) [
  | Ordering.lt ↦ true
  | Ordering.eq ↦ elim (compare a.stage_run_id b.stage_run_id) [ Ordering.lt ↦ true | _ ↦ false ]
  | Ordering.gt ↦ false
]

abbrev pub is_active_of : String → StageRun → Bool
is_active_of triage_id r = r.triage_id == triage_id && is_active_status r.status

abbrev pub has_id : String → StageRun → Bool
has_id stage_run_id r = r.stage_run_id == stage_run_id

-- `get`, `get_active` and `list_by_run_id`.
abbrev pub get : String → List StageRun → Option StageRun
get stage_run_id = find (has_id stage_run_id)

abbrev pub get_active : String → List StageRun → Option StageRun
get_active triage_id = find (is_active_of triage_id)

abbrev pub list_by_run_id : String → List StageRun → List StageRun
list_by_run_id run_id = filter (λ r. r.run_id == run_id)

-- `insert`: the primary key and the index `stage_run_one_active_idx` refuse a row.
unfoldable pub insert : StageRun → List StageRun → Result (List StageRun)
unfolding row_before
insert r rows = do
  raise_if (is_some (get r.stage_run_id rows)) (integrity_error "stage_run.stage_run_id")
  raise_if (is_active_status r.status && is_some (get_active r.triage_id rows))
      (integrity_error "stage_run_one_active_idx")
  ok (place row_before r rows)

abbrev pub claimed : ℕ → ℕ → StageRun → StageRun
claimed started_at lease_expires_at r = record r {
  status = running;
  started_at = some started_at;
  lease_expires_at = some lease_expires_at;
}

abbrev pub finished : StageRunStatus → Option String → Option String → ℕ → StageRun → StageRun
finished status output_commit_sha failure finished_at r = record r {
  status = status;
  output_commit_sha = output_commit_sha;
  failure = failure;
  lease_expires_at = none;
  finished_at = some finished_at;
}

-- `claim_next`: the first queued row of the Feature becomes RUNNING; `none` if there is none.
unfoldable pub claim_next :
    String
    → (started_at lease_expires_at : ℕ) → List StageRun
    → Result (Option (StageRun × List StageRun))
claim_next triage_id started_at lease_expires_at rows = checked check_stage_run (
    update_first (λ r. r.triage_id == triage_id && is_queued r.status)
      (claimed started_at lease_expires_at) rows)

-- `_finish`.
unfoldable pub finish :
    String
    → StageRunStatus
    → (output_commit_sha failure : Option String) → ℕ
    → List StageRun
    → Result (StageRun × List StageRun)
finish stage_run_id status output_commit_sha failure finished_at rows = do
  row ← checked check_stage_run (
      update_first (λ r. r.stage_run_id == stage_run_id && is_running r.status)
        (finished status output_commit_sha failure finished_at) rows)
  or_raise row (lookup_error "Running StageRun not found")

-- `mark_succeeded` and `mark_failed`.
unfoldable pub mark_succeeded :
    String → String → ℕ → List StageRun → Result (StageRun × List StageRun)
unfolding finish
mark_succeeded stage_run_id output_commit_sha =
    finish stage_run_id succeeded (some output_commit_sha) none

unfoldable pub mark_failed : String → String → ℕ → List StageRun → Result (StageRun × List StageRun)
unfolding finish
mark_failed stage_run_id failure = finish stage_run_id failed none (some failure)

abbrev pub fail_row : String → String → ℕ → StageRun → StageRun
fail_row triage_id failure finished_at r =
    amend (is_active_of triage_id) (finished failed none (some failure) finished_at) r

-- `fail_active`: every active row of the Feature, failed, with the table after it.
unfoldable pub fail_active :
    String → ℕ → String → List StageRun → Result (List StageRun × List StageRun)
fail_active triage_id finished_at failure rows = do
  raise_if (is_blank failure) (value_error "StageRun failure must not be empty")
  failed_rows ←
      check_rows check_stage_run
        (map (fail_row triage_id failure finished_at) (filter (is_active_of triage_id) rows))
  ok (failed_rows, map (fail_row triage_id failure finished_at) rows)
