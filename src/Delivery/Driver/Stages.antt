-- ===== src/Delivery/Driver/Stages.antt =====
-- Claiming, succeeding, failing and reconciling a Stage (`_claim_next_stage`, `_succeed_stage`,
-- `_fail_stage` and `reconcile_interrupted_work` of _driver.py).
pub mod Continued
pub mod Following
pub mod Outcome
pub mod Retry
pub mod Walk
pub mod Claim
pub mod Reconcile
use agent_panel_x.Prelude.{
  [], ◌>>=◌, ◌>>◌, ℕ, zero, suc, String, Bool, true, false, not, ◌&&◌, Option, none, some, List,
  ◌∷◌, ◌==◌, if◌then◌else◌, length, filter, all, normalize, value_error, lookup_error,
  delivery_error, runtime_error, Result, ok, err, raise_if, or_raise,
}
use agent_panel_x.State.{ProjectRuntimeState}
use agent_panel_x.Delivery.Models.{
  queued, running, Stage, Milestone, StageRun, occurs, stage_keys, is_empty, check_stage_run,
  is_queued, is_running, is_revision, delivery_candidate_ref,
}
use agent_panel_x.Event.{
  RuntimeContextChangeReason, ExecutionEvent, ExecutionEventType, PayloadValue,
}
use agent_panel_x.Runtime.{
  ProjectOwnerTask, candidate_ready_task, candidate_revision_failed_task, World, Action, transition,
  publish, submit_owner_input,
}
use agent_panel_x.Delivery.StageRuns
use agent_panel_x.Delivery.Driver.Contract.{
  StageContract, stage_contract, advance_stage, candidate_ready, stage_failed,
  block_runtime_execution, next_stage,
}

abbrev revision_failed_task : StageRun → String → ProjectOwnerTask
revision_failed_task r failure =
    candidate_revision_failed_task r.run_id r.milestone_key r.stage_key r.input_commit_sha failure

pub record StageClaim : Type 0 where
  pub state : ProjectRuntimeState
  pub contract : StageContract
  pub stage_run : StageRun
  pub executor_session_stage_run_id : String

pub record StageCompletion : Type 0 where
  pub state : ProjectRuntimeState
  pub stage_run : StageRun
  pub next_stage_run : Option StageRun
  pub candidate_commit_sha : Option String

-- The walk of `_executor_session_stage_run_id` to the run that a chain of revisions started from.
-- Each round adds an identity to `seen`, so the walk is over within one round more than the table has
-- rows; `fuel` is that number.
unfoldable pub revision_root : ℕ → List String → StageRun → List StageRun → Result StageRun
revision_root zero seen current rows = err (runtime_error "out of fuel")
revision_root (suc fuel) seen current rows = elim current.revision_of_stage_run_id [
  | none ↦ ok current
  | some source ↦ (do
    raise_if (occurs current.stage_run_id seen)
        (delivery_error "StageRun revision chain contains a cycle")
    parent ←
        or_raise (StageRuns.get source rows) (delivery_error "StageRun revision parent is missing")
    revision_root fuel (current.stage_run_id ∷ seen) parent rows)
]

unfoldable pub first_attempt : StageRun → List StageRun → String
first_attempt root [] = root.stage_run_id
first_attempt root (item ∷ items) = item.stage_run_id

-- `_executor_session_stage_run_id`.
unfoldable pub executor_session_stage_run_id : StageRun → List StageRun → Result String
unfolding revision_root first_attempt
executor_session_stage_run_id r rows = do
  root ← revision_root (suc (suc (length rows))) [] r rows
  ok (
      first_attempt root (
        filter (λ item. item.stage_key == root.stage_key && not (is_revision item))
          (StageRuns.list_by_run_id root.run_id rows)))

unfoldable pub started_event : ProjectRuntimeState → StageRun → ℕ → ExecutionEvent
started_event context r lease_expires_at = record {
  triage_id = context.triage_id;
  event_type = ExecutionEventType.stage_run_started;
  payload =
      ("stage_run_id", PayloadValue.str r.stage_run_id)
      ∷ ("run_id", PayloadValue.str r.run_id)
      ∷ ("snapshot_id", PayloadValue.str r.snapshot_id)
      ∷ ("milestone_key", PayloadValue.str r.milestone_key)
      ∷ ("stage_key", PayloadValue.str r.stage_key)
      ∷ ("input_commit_sha", PayloadValue.str r.input_commit_sha)
      ∷ ("lease_expires_at", PayloadValue.number lease_expires_at)
      ∷ [];
}

-- `_claim_next_stage`.
unfoldable pub claim_next_stage : (started_at lease_expires_at : ℕ) → Action StageClaim
claim_next_stage started_at lease_expires_at w = do
  active ←
      or_raise (StageRuns.get_active w.state.triage_id w.stage_runs)
        (delivery_error "Project has no queued StageRun")
  raise_if (not (is_queued active.status)) (delivery_error "Project already has a running StageRun")
  contract ← stage_contract w.state active w
  session ← executor_session_stage_run_id active w.stage_runs
  row ← StageRuns.claim_next w.state.triage_id started_at lease_expires_at w.stage_runs
  (claimed, rows) ← or_raise row (delivery_error "StageRun could not be claimed")
  ok (
    record {
      state = w.state;
      contract = contract;
      stage_run = claimed;
      executor_session_stage_run_id = session;
    },
    publish (started_event w.state claimed lease_expires_at) (record w { stage_runs = rows }),
  )

abbrev pub following_run : StageRun → Stage → String → String → ℕ → StageRun
following_run r stage stage_run_id input_commit_sha created_at = record {
  stage_run_id = stage_run_id;
  triage_id = r.triage_id;
  run_id = r.run_id;
  snapshot_id = r.snapshot_id;
  milestone_key = r.milestone_key;
  stage_key = stage.key;
  status = queued;
  input_commit_sha = input_commit_sha;
  output_commit_sha = none;
  failure = none;
  created_at = created_at;
  started_at = none;
  lease_expires_at = none;
  finished_at = none;
  revision_of_stage_run_id = none;
  revision_feedback = none;
}

-- What `_succeed_stage` does after the row is marked: queue the next Stage, or publish the Candidate
-- to the Owner. `stage_run_uuid` and `message_id` are the fresh identities.
unfoldable pub continue_run :
    Milestone
    → (running_run succeeded_run : StageRun) → (output_commit_sha : String) → ℕ
    → (stage_run_uuid message_id : String) → Option Stage
    → Action StageCompletion
continue_run milestone r succeeded_run output finished_at stage_run_uuid message_id (some stage) w =
    do
      next_run ← check_stage_run (following_run r stage stage_run_uuid output finished_at)
      rows ← StageRuns.insert next_run w.stage_runs
      (updated, w') ←
          transition RuntimeContextChangeReason.stage_run_succeeded (advance_stage r stage)
            (record w { stage_runs = rows })
      ok (
        record {
          state = updated;
          stage_run = succeeded_run;
          next_stage_run = some next_run;
          candidate_commit_sha = none;
        },
        w',
      )
continue_run milestone r succeeded_run output finished_at stage_run_uuid message_id none w = do
  (updated, w') ← transition RuntimeContextChangeReason.candidate_ready (candidate_ready r output) w
  candidate_ref ← delivery_candidate_ref r.run_id
  w'' ←
      submit_owner_input
        (candidate_ready_task r.snapshot_id r.run_id r.milestone_key updated.git_main_version output
          candidate_ref (stage_keys milestone.stages))
        message_id w'
  ok (
    record {
      state = updated;
      stage_run = succeeded_run;
      next_stage_run = none;
      candidate_commit_sha = some output;
    },
    w'',
  )

-- `_succeed_stage`.
unfoldable pub succeed_stage :
    (stage_run_id output_commit_sha : String)
    → ℕ
    → (stage_run_uuid message_id : String) → Action StageCompletion
succeed_stage stage_run_id output finished_at stage_run_uuid message_id w = do
  r ← or_raise (StageRuns.get stage_run_id w.stage_runs) (lookup_error "StageRun not found")
  raise_if (not (w.state.triage_id == r.triage_id))
      (delivery_error "StageRun does not belong to this Project Runtime")
  contract ← stage_contract w.state r w
  raise_if (not (is_running r.status)) (delivery_error "Only a running StageRun can succeed")
  (succeeded_run, rows) ← StageRuns.mark_succeeded stage_run_id output finished_at w.stage_runs
  stage ← next_stage contract.stage.key contract.milestone.stages
  continue_run contract.milestone r succeeded_run output finished_at stage_run_uuid message_id stage
      (record w { stage_runs = rows })

unfoldable pub submit_revision_failure : Bool → StageRun → String → String → World → Result World
submit_revision_failure false r failure message_id w = ok w
submit_revision_failure true r failure message_id w =
    submit_owner_input (revision_failed_task r failure) message_id w

-- `_fail_stage`.
unfoldable pub fail_stage :
    (stage_run_id failure : String) → ℕ → (message_id : String) → Action StageCompletion
fail_stage stage_run_id failure finished_at message_id w = do
  raise_if (normalize failure == "") (value_error "Stage failure must not be empty")
  r ← or_raise (StageRuns.get stage_run_id w.stage_runs) (lookup_error "StageRun not found")
  raise_if (not (w.state.triage_id == r.triage_id))
      (delivery_error "StageRun does not belong to this Project Runtime")
  contract ← stage_contract w.state r w
  raise_if (not (is_running r.status)) (delivery_error "Only a running StageRun can fail")
  (failed_run, rows) ←
      StageRuns.mark_failed stage_run_id (normalize failure) finished_at w.stage_runs
  (updated, w') ←
      transition RuntimeContextChangeReason.stage_run_failed (stage_failed r)
        (record w { stage_runs = rows })
  w'' ← submit_revision_failure (is_revision r) r (normalize failure) message_id w'
  ok (
    record {
      state = updated;
      stage_run = failed_run;
      next_stage_run = none;
      candidate_commit_sha = none;
    },
    w'',
  )

unfoldable pub submit_failures : String → String → List StageRun → World → Result World
submit_failures failure message_id [] w = ok w
submit_failures failure message_id (r ∷ rs) w = do
  w' ← submit_revision_failure (is_revision r) r failure message_id w
  submit_failures failure message_id rs w'

unfoldable pub reconcile_failed :
    List StageRun → (failure message_id : String) → List StageRun → Action (List StageRun)
reconcile_failed failed_runs failure message_id rows w =
    if is_empty failed_runs then ok ([], w) else (do
      (updated, w') ←
          transition RuntimeContextChangeReason.interrupted_work_failed
            (if all is_revision failed_runs then (λ latest. ok latest) else block_runtime_execution)
            (record w { stage_runs = rows })
      w'' ← submit_failures failure message_id failed_runs w'
      ok (failed_runs, w''))

-- The transaction of `reconcile_interrupted_work`: the failed rows, empty where no work was active.
unfoldable pub reconcile_interrupted_work :
    ℕ → (failure message_id : String) → Action (List StageRun)
reconcile_interrupted_work finished_at failure message_id w = do
  (failed_runs, rows) ← StageRuns.fail_active w.state.triage_id finished_at failure w.stage_runs
  reconcile_failed failed_runs failure message_id rows w
