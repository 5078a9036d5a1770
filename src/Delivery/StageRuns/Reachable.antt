-- ===== src/Delivery/StageRuns/Reachable.antt =====
-- The tables that the operations of the repository can reach.
use agent_panel_x.Delivery.Models.Checks.{check_stage_run-identity}
use agent_panel_x.Prelude.{
  [], le_trans, ℕ, ◌≤◌, String, ◌≡◌, refl, sym, false, Option, none, some, List, arith, eq_iff,
  count, All, raising, ok,
}
use agent_panel_x.Delivery.Models.{
  failed, StageRunStatus, StageRun, check_stage_run, is_active_status,
}
use mathlib.Core.Path.{subst}
use agent_panel_x.Table.{place}
use agent_panel_x.Table.Updates.{
  count-place, find-none-count, count-update_first, count-amend_le, count-amend,
}
use agent_panel_x.Table.Checked.{Passes, All-place, All-update_first, All-amend, checked-some}
use agent_panel_x.Delivery.StageRuns.{
  row_before, is_active_of, has_id, insert, claim_next, finished, finish, fail_active,
}
use agent_panel_x.Delivery.StageRuns.Active.{
  active_count, fail_active-parts, insert-one_active, claim_next-one_active, finish-one_active,
}
use agent_panel_x.Delivery.StageRuns.Rows.{finish-found}

-- A table is reached from the empty one by insertions of rows that passed their checks, claims, terminal
-- updates and the failure of all active work.
pub data Reachable : List StageRun → Type 0 where
  start : Reachable []
  inserting :
      (r : StageRun) (rows rows' : List StageRun)
      → Reachable rows
      → check_stage_run r ≡ ok r
      → insert r rows ≡ ok rows'
      → Reachable rows'
  claiming :
      (triage_id : String) (started_at lease_expires_at : ℕ) (r : StageRun)
      (rows rows' : List StageRun)
      → Reachable rows
      → claim_next triage_id started_at lease_expires_at rows ≡ ok (some (r, rows'))
      → Reachable rows'
  ending :
      (stage_run_id : String) (status : StageRunStatus) (output failure : Option String)
      (finished_at : ℕ) (r : StageRun) (rows rows' : List StageRun)
      → Reachable rows
      → is_active_status status ≡ false
      → finish stage_run_id status output failure finished_at rows ≡ ok (r, rows')
      → Reachable rows'
  failing :
      (triage_id : String) (finished_at : ℕ) (failure : String) (failed_rows : List StageRun)
      (rows rows' : List StageRun)
      → Reachable rows
      → fail_active triage_id finished_at failure rows ≡ ok (failed_rows, rows')
      → Reachable rows'

-- The invariant of the table.
pub record IsSound (rows : List StageRun) : Type 0 where
  pub one_active : (triage_id : String) → active_count triage_id rows ≤ 1
  pub one_each : (stage_run_id : String) → count (has_id stage_run_id) rows ≤ 1
  pub valid : All (Passes check_stage_run) rows

insert-Sound :
    (r : StageRun) (rows rows' : List StageRun)
    → IsSound rows
    → Passes check_stage_run r
    → insert r rows ≡ ok rows'
    → IsSound rows'
unfolding raising insert
insert-Sound r rows rows' sound valid e = record {
  one_active = λ t. insert-one_active r rows rows' t (sound.one_active t) e;
  one_each = λ k. ground (
    arith,
    sound.one_each k,
    count-place row_before (has_id k) r rows,
    find-none-count (has_id r.stage_run_id) rows,
    eq_iff r.stage_run_id k,
  );
  valid =
      (let same : place row_before r rows ≡ rows' = ground arith in
        subst (All (Passes check_stage_run)) same
          (All-place check_stage_run row_before r rows valid sound.valid));
}

-- In every table that the repository reaches, each Feature has at most one active row, each identity is
-- that of at most one row, and every row passes the checks of its class.
pub reachable-Sound : (rows : List StageRun) → Reachable rows → IsSound rows
unfolding claim_next
reachable-Sound rows Reachable.start = record {
  one_active = λ t. omega arith;
  one_each = λ k. omega arith;
  valid = tt;
}
reachable-Sound rows' (Reachable.inserting r rows _ reached valid e) =
    insert-Sound r rows rows' (reachable-Sound rows reached) valid e
reachable-Sound rows' (Reachable.claiming t a b r rows _ reached e) =
    let sound : IsSound rows = reachable-Sound rows reached in
    let (update, valid) = checked-some check_stage_run check_stage_run-identity _ r rows' e in
    record {
      one_active =
          λ k. le_trans (claim_next-one_active t a b rows rows' r e k) (sound.one_active k);
      one_each = λ k.
          subst (λ (n : ℕ). n ≤ 1)
            (sym (count-update_first (has_id k) _ _ (λ x picked. refl) rows rows' r update))
            (sound.one_each k);
      valid = All-update_first check_stage_run _ _ rows rows' r update valid sound.valid;
    }
reachable-Sound rows' (Reachable.ending id status output failure n r rows _ reached terminal e) =
    let sound : IsSound rows = reachable-Sound rows reached in
    let (_, _, _, update, valid) = finish-found id status output failure n rows rows' r e in
    record {
      one_active = λ k.
          le_trans (finish-one_active id status output failure n rows rows' r e terminal k)
            (sound.one_active k);
      one_each = λ k.
          subst (λ (m : ℕ). m ≤ 1)
            (sym (count-update_first (has_id k) _ _ (λ x picked. refl) rows rows' r update))
            (sound.one_each k);
      valid = All-update_first check_stage_run _ _ rows rows' r update valid sound.valid;
    }
reachable-Sound rows' (Reachable.failing t n failure failed_rows rows _ reached e) =
    let sound : IsSound rows = reachable-Sound rows reached in
    let (_, same, checked_ones) = fail_active-parts t n failure rows failed_rows rows' e in
    let ended : StageRun → StageRun = finished failed none (some failure) n in
    subst IsSound (sym same) (record {
      one_active = λ k.
          le_trans
            (count-amend_le (is_active_of k) (is_active_of t) ended
              (λ x picked active. ground arith) rows)
            (sound.one_active k);
      one_each = λ k.
          subst (λ (m : ℕ). m ≤ 1)
            (sym (count-amend (has_id k) (is_active_of t) ended (λ x picked. refl) rows))
            (sound.one_each k);
      valid = All-amend check_stage_run (is_active_of t) ended rows sound.valid checked_ones;
    })
