-- ===== src/Delivery/Driver/Stages/Retry.antt =====
-- The retry of a failed Stage (`assert_retryable_blocked` and `queue_run` of _driver.py).
use agent_panel_x.Delivery.Models.Checks.{check_stage_run-identity}
use agent_panel_x.Prelude.{
  le_trans, ℕ, ◌≤◌, String, ◌≡◌, refl, sym, ap, ◌∙◌, inl, inr, Bool, true, false, Option, none,
  some, List, arith, ◌==◌, eq_iff, Option-cases, last?, find, count, find-holds, Ensures,
  Ensures-bind, Ensures-guard, Ensures-then, Ensures-ok, normalize, raising, ok, Result-cases,
}
use agent_panel_x.State.{blocked, ProjectRuntimeState, is_blocked}
use agent_panel_x.Delivery.Models.{
  failed, Stage, Milestone, MilestoneSnapshot, StageRun, is_revision,
}
use agent_panel_x.Runtime.{World}
use agent_panel_x.Delivery.StageRuns
use agent_panel_x.Delivery.StageRuns.{list_by_run_id, has_id}
use agent_panel_x.Delivery.StageRuns.Rows.{running_with_id}
use agent_panel_x.Table.Updates.{update_first-last, count-narrow}
use agent_panel_x.Delivery.Git.{Git}
use agent_panel_x.Delivery.Driver.{
  at_cursor-eq, assert_retryable_blocked, Retryable, assert_retryable_blocked-Retryable,
}
use agent_panel_x.Delivery.Driver.Queue.{
  MilestoneRunQueued, retry_source, run_identity, select_stage, select_input, queue_run,
}
use agent_panel_x.Delivery.Driver.Stages.{StageCompletion, fail_stage}
use agent_panel_x.Delivery.Driver.Stages.Outcome.{Failed, fail_stage-Failed}

count-running :
    (stage_run_id : String) (rows : List StageRun)
    → count (has_id stage_run_id) rows ≤ 1
    → count (running_with_id stage_run_id) rows ≤ 1
count-running id rows h =
    le_trans (count-narrow (has_id id) (running_with_id id) rows (λ r runs. ground arith)) h

retry_guard :
    (context : ProjectRuntimeState) (w : World) (row r : StageRun)
    → context.status ≡ blocked
    → context.pending_action ≡ none
    → (started_at : ℕ) → context.rolling_started_at ≡ some started_at
    → context.current_candidate_commit_sha ≡ none
    → context.current_run_id ≡ some row.run_id
    → last? (list_by_run_id row.run_id w.stage_runs) ≡ some row
    → context.current_stage_key ≡ some row.stage_key
    → context.current_milestone_key ≡ some row.milestone_key
    → context.current_snapshot_id ≡ some row.snapshot_id
    → row.status ≡ failed
    → r ≡ row
    → assert_retryable_blocked false context w ≡ ok r
unfolding raising assert_retryable_blocked
retry_guard context w row r s p t ro c ru l st m sn f e = ground (
  arith,
  eq_iff row.stage_key row.stage_key,
  eq_iff row.milestone_key row.milestone_key,
  eq_iff row.snapshot_id row.snapshot_id,
)

-- A normal Stage that was the last of its Run, in a delivery that is rolling, leaves a BLOCKED project
-- whose failed Stage the retry guard accepts.
pub fail_stage-retryable :
    (stage_run_id failure : String) (finished_at started_at : ℕ) (message_id : String)
    (w w' : World) (c : StageCompletion) (r : StageRun)
    → count (has_id stage_run_id) w.stage_runs ≤ 1
    → find (running_with_id stage_run_id) w.stage_runs ≡ some r
    → is_revision r ≡ false
    → last? (list_by_run_id r.run_id w.stage_runs) ≡ some r
    → w.state.rolling_started_at ≡ some started_at
    → fail_stage stage_run_id failure finished_at message_id w ≡ ok (c, w')
    → assert_retryable_blocked false w'.state w' ≡ ok c.stage_run
fail_stage-retryable stage_run_id failure finished_at started_at message_id w w' c r one found
      normal last_r rolling h =
    let f : Failed w stage_run_id failure finished_at c w' =
      fail_stage-Failed stage_run_id failure finished_at message_id w w' c one h in
    let same : f.run ≡ r = ground (arith, f.was_running, found) in
    let row : StageRun = StageRuns.finished failed none (some (normalize failure)) finished_at r in
    let state : w'.state ≡ record w.state { status = blocked } =
      ground (arith, f.state, same, normal) in
    let (run, snapshot, key, stage) = at_cursor-eq w.state r (ground (arith, f.at, same)) in
    let last_row : last? (list_by_run_id r.run_id w'.stage_runs) ≡ some row =
      update_first-last (running_with_id stage_run_id) (λ x. x.run_id == r.run_id)
        (StageRuns.finished failed none (some (normalize failure)) finished_at) (λ x. refl)
        w.stage_runs w'.stage_runs c.stage_run r (count-running stage_run_id w.stage_runs one)
        last_r (find-holds (running_with_id stage_run_id) w.stage_runs r found) f.rows in
    let made : c.stage_run ≡ row =
      f.row ∙ ap (StageRuns.finished failed none (some (normalize failure)) finished_at) same in
    let candidate : w.state.current_candidate_commit_sha ≡ none =
      f.no_candidate (ground (arith, same, normal)) in
    retry_guard w'.state w' row c.stage_run (ground (arith, state))
      (ground (arith, state, f.undecided)) started_at (ground (arith, state, rolling))
      (ground (arith, state, candidate)) (ground (arith, state, run)) last_row
      (ground (arith, state, stage)) (ground (arith, state, key)) (ground (arith, state, snapshot))
      refl made

-- What a retry repeats of the failed run.
pub record Repeats (failed_run : StageRun) (receipt : MilestoneRunQueued) : Type 0 where
  pub run : receipt.stage_run.run_id ≡ failed_run.run_id
  pub stage : receipt.stage_run.stage_key ≡ failed_run.stage_key
  pub input : receipt.stage_run.input_commit_sha ≡ failed_run.input_commit_sha
  pub ended : failed_run.status ≡ failed

retried :
    (allow : Bool) (current : ProjectRuntimeState) (w : World) (found : Option StageRun)
    → retry_source true allow current w ≡ ok found
    → (r : StageRun) × (found ≡ some r) × Retryable current w r
unfolding raising retry_source
retried allow current w found h = elim (Result-cases (assert_retryable_blocked allow current w)) [
  | inl (r, e) ↦ (r, ground (arith, e), (assert_retryable_blocked-Retryable allow current w).at r e)
  | inr (x, e) ↦ absurd (ground (arith, e))
]

selected_stage :
    (m : Milestone) (r : StageRun) (stage : Stage)
    → select_stage m (some r) ≡ ok stage
    → stage.key ≡ r.stage_key
unfolding raising select_stage
selected_stage m r stage h =
    elim (Option-cases (find (λ stage. stage.key == r.stage_key) m.stages)) [
      | inl nothing ↦ absurd (ground arith)
      | inr (s, found) ↦ ground (
        arith,
        found,
        find-holds (λ stage. stage.key == r.stage_key) m.stages s found,
        eq_iff s.key r.stage_key,
      )
    ]

repeated :
    (r built : StageRun) (current : ProjectRuntimeState) (w : World) (head run_uuid : String)
    (stage : Stage) (failed_run : Option StageRun) (receipt : MilestoneRunQueued) (m : Milestone)
    → Retryable current w r
    → failed_run ≡ some r
    → select_stage m failed_run ≡ ok stage
    → receipt.stage_run ≡ built
    → built.run_id ≡ run_identity true current.current_run_id run_uuid
    → built.stage_key ≡ stage.key
    → built.input_commit_sha ≡ select_input head failed_run
    → Repeats r receipt
unfolding run_identity select_input
repeated r built current w head run_uuid stage failed_run receipt m ret e sel same a b c =
    let key : stage.key ≡ r.stage_key =
      selected_stage m r stage (ap (λ (o : Option StageRun). select_stage m o) (sym e) ∙ sel) in
    record {
      run = ground (arith, ret.run, same, a);
      stage = ground (arith, key, same, b);
      input = ground (arith, e, same, c);
      ended = ret.ended;
    }

-- A retry of a BLOCKED delivery is queued for the Run, the Stage and the input commit of the failed
-- StageRun that the cursor points to.
pub queue_run-Repeats :
    (git : Git) (current : ProjectRuntimeState) (snapshot : MilestoneSnapshot)
    (milestone : Milestone) (blocked_approval : Bool) (now : ℕ) (run_uuid stage_run_uuid : String)
    (w w' : World) (receipt : MilestoneRunQueued)
    → current.status ≡ blocked
    → queue_run git current snapshot milestone false blocked_approval now run_uuid stage_run_uuid w
      ≡ ok (receipt, w')
    → (failed_run : StageRun) × Retryable current w failed_run × Repeats failed_run receipt
unfolding queue_run
queue_run-Repeats git current snapshot milestone blocked_approval now run_uuid stage_run_uuid w w'
      receipt blocked_now h =
    let e : Ensures
        (queue_run git current snapshot milestone false blocked_approval now run_uuid stage_run_uuid
          w)
        (λ result.
          (failed_run : StageRun) × Retryable current w failed_run × Repeats failed_run result.0) =
      Ensures-then _ _ λ _. Ensures-bind _ _ λ branch _. Ensures-bind _ _ λ head _.
        Ensures-guard _ _ _ λ _. Ensures-bind _ _ λ failed_run source. Ensures-then _ _ λ _.
          Ensures-guard _ _ _ λ _. Ensures-guard _ _ _ λ _. Ensures-bind _ _ λ stage selected.
            Ensures-bind _ _ λ r valid. Ensures-bind _ _ λ step _.
              let retry : is_blocked current.status ≡ true = rw blocked_now in
              let (old, is_old, ret) = retried blocked_approval current w failed_run (
                ap (λ (b : Bool). retry_source b blocked_approval current w) (sym retry)
                ∙ source) in
              Ensures-ok _ _ (
                old,
                ret,
                repeated old _ current w head run_uuid stage failed_run _ milestone ret is_old
                    selected (check_stage_run-identity _ r valid)
                    (ap (λ (b : Bool). run_identity b current.current_run_id run_uuid) retry) refl
                    refl,
              ) in
    e.at (receipt, w') h
