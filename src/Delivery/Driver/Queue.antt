-- ===== src/Delivery/Driver/Queue.antt =====
-- Queueing the first Stage of a Run, or the retry of a failed one (`queue_run` of _driver.py).
pub mod Receipt
use agent_panel_x.Prelude.{
  [], ◌>>=◌, ◌>>◌, ℕ, String, Bool, true, false, not, ◌&&◌, ◌||◌, Option, none, some, ◌∷◌, ◌==◌,
  if◌then◌else◌, is_none, is_some, opt_eq, head?, find, lookup_error, delivery_error,
  stop_iteration, Result, ok, raise_if, or_raise,
}
use agent_panel_x.State.{
  ready, in_progress, ProjectRuntimeState, is_ready, is_in_progress, is_blocked,
  is_first_run_approval, is_blocked_run_approval, post_init,
}
use agent_panel_x.Delivery.Models.{
  pending, queued, Stage, Milestone, MilestoneSnapshot, StageRun, check_stage_run,
}
use agent_panel_x.Event.{
  RuntimeContextChangeReason, ExecutionEvent, ExecutionEventType, PayloadValue,
}
use agent_panel_x.Runtime.{World, Action, transition, publish}
use agent_panel_x.Delivery.StageRuns
use agent_panel_x.Delivery.Git.{Git, as_delivery}
use agent_panel_x.Delivery.Driver.{
  snapshot_for_context, first_pending_milestone, assert_retryable_blocked,
}

-- The receipt of a queued Run.
pub record MilestoneRunQueued : Type 0 where
  pub state : ProjectRuntimeState
  pub snapshot : MilestoneSnapshot
  pub milestone : Milestone
  pub stage : Stage
  pub stage_run : StageRun
  pub first_run : Bool

unfoldable pub retry_source : Bool → Bool → ProjectRuntimeState → World → Result (Option StageRun)
retry_source false blocked_approval current w = ok none
retry_source true blocked_approval current w = do
  failed_run ← assert_retryable_blocked blocked_approval current w
  ok (some failed_run)

-- The guards of a Run that is not the first one.
unfoldable pub later_guards : ProjectRuntimeState → Bool → String → String → Result (Unit {0})
later_guards current blocked_approval branch input_commit_sha = do
  raise_if
      (not (is_in_progress current.status || is_blocked current.status)
        || is_some current.pending_action
          && not (blocked_approval && is_blocked_run_approval current.pending_action))
      (delivery_error
        "A later Milestone Run requires IN_PROGRESS or a retryable BLOCKED project with no pending action")
  raise_if
      (not (opt_eq current.git_branch (some branch))
        || not (opt_eq current.git_main_version (some input_commit_sha)))
      (delivery_error "Project target Git state changed outside Delivery")

unfoldable pub unless_first : Bool → Result (Unit {0}) → Result (Unit {0})
unless_first true guards = ok tt
unless_first false guards = guards

unfoldable pub run_identity : Bool → Option String → String → String
run_identity true (some run_id) run_uuid = run_id
run_identity _ _ run_uuid = run_uuid

unfoldable pub select_stage : Milestone → Option StageRun → Result Stage
select_stage m none = or_raise (head? m.stages) (lookup_error "tuple index out of range")
select_stage m (some r) =
    or_raise (find (λ stage. stage.key == r.stage_key) m.stages) stop_iteration

unfoldable pub select_input : String → Option StageRun → String
select_input head none = head
select_input head (some r) = r.input_commit_sha

unfoldable pub is_same_run : Option StageRun → StageRun → Bool
is_same_run none again = false
is_same_run (some r) again = again.stage_run_id == r.stage_run_id

-- The guards on the latest state, inside the transaction.
unfoldable pub assert_queueable : Bool → Bool → Bool → Option StageRun → World → Result (Unit {0})
assert_queueable true retry blocked_approval failed_run w =
    raise_if
      (not (is_ready w.state.status)
        || not (is_first_run_approval w.state.pending_action)
        || is_some w.state.rolling_started_at)
      (delivery_error "Project is no longer waiting for first Run approval")
assert_queueable false true blocked_approval failed_run w = do
  again ← assert_retryable_blocked blocked_approval w.state w
  raise_if (not (is_same_run failed_run again))
      (delivery_error "Blocked delivery cursor changed while queueing its retry")
assert_queueable false false blocked_approval failed_run w =
    raise_if
      (not (is_in_progress w.state.status)
        || is_some w.state.pending_action
        || is_none w.state.rolling_started_at)
      (delivery_error "Project is no longer ready for another Milestone Run")

abbrev pub new_run :
    (stage_run_id triage_id run_id snapshot_id milestone_key stage_key input_commit_sha : String)
    → ℕ
    → StageRun
new_run stage_run_id triage_id run_id snapshot_id milestone_key stage_key input_commit_sha now =
    record {
      stage_run_id = stage_run_id;
      triage_id = triage_id;
      run_id = run_id;
      snapshot_id = snapshot_id;
      milestone_key = milestone_key;
      stage_key = stage_key;
      status = queued;
      input_commit_sha = input_commit_sha;
      output_commit_sha = none;
      failure = none;
      created_at = now;
      started_at = none;
      lease_expires_at = none;
      finished_at = none;
      revision_of_stage_run_id = none;
      revision_feedback = none;
    }

-- The `replace` of the transition.
unfoldable pub queued_state : Bool → String → StageRun → ProjectRuntimeState → ProjectRuntimeState
queued_state first_run branch r saved = record saved {
  status = in_progress;
  pending_action = none;
  git_branch = if first_run then some branch else saved.git_branch;
  git_main_version = if first_run then some r.input_commit_sha else saved.git_main_version;
  rolling_started_at = if first_run then some r.created_at else saved.rolling_started_at;
  current_run_id = some r.run_id;
  current_milestone_key = some r.milestone_key;
  current_stage_key = some r.stage_key;
  current_candidate_commit_sha = none;
}

unfoldable pub queued_event : Bool → ProjectRuntimeState → StageRun → ExecutionEvent
queued_event first_run updated r = record {
  triage_id = updated.triage_id;
  event_type = ExecutionEventType.milestone_run_queued;
  payload =
      ("run_id", PayloadValue.str r.run_id)
      ∷ ("stage_run_id", PayloadValue.str r.stage_run_id)
      ∷ ("snapshot_id", PayloadValue.str r.snapshot_id)
      ∷ ("milestone_key", PayloadValue.str r.milestone_key)
      ∷ ("stage_key", PayloadValue.str r.stage_key)
      ∷ ("input_commit_sha", PayloadValue.str r.input_commit_sha)
      ∷ ("first_run", PayloadValue.flag first_run)
      ∷ [];
}

-- The transaction of `queue_run`, for a StageRun that was built before it.
unfoldable pub queue_transaction :
    MilestoneSnapshot
    → Milestone
    → (first_run retry blocked_approval : Bool) → Option StageRun
    → String
    → StageRun
    → Action ProjectRuntimeState
queue_transaction snapshot milestone first_run retry blocked_approval failed_run branch r w = do
  latest_snapshot ← snapshot_for_context w.state w
  latest_milestone ← first_pending_milestone latest_snapshot
  raise_if
      (not (latest_snapshot.snapshot_id == snapshot.snapshot_id)
        || not (latest_milestone.key == milestone.key))
      (delivery_error "Milestone selection changed while queueing its Run")
  assert_queueable first_run retry blocked_approval failed_run w
  raise_if (is_some w.state.current_run_id && not retry)
      (delivery_error "Project gained an active Run or Candidate")
  raise_if (is_some w.state.current_candidate_commit_sha)
      (delivery_error "Project gained an active Run or Candidate")
  rows ← StageRuns.insert r w.stage_runs
  transition
      (if first_run
        then RuntimeContextChangeReason.first_run_started
        else RuntimeContextChangeReason.milestone_run_queued)
      (λ saved. post_init (queued_state first_run branch r saved)) (record w { stage_runs = rows })

-- `queue_run`; `now`, `run_uuid` and `stage_run_uuid` are the clock and the two fresh identities.
unfoldable pub queue_run :
    Git
    → ProjectRuntimeState
    → MilestoneSnapshot
    → Milestone
    → (first_run blocked_approval : Bool) → ℕ
    → (run_uuid stage_run_uuid : String) → Action MilestoneRunQueued
queue_run git current snapshot milestone first_run blocked_approval now run_uuid stage_run_uuid w =
    do
      as_delivery git.assert_clean
      branch ← as_delivery git.current_branch
      head ← as_delivery git.head_sha
      let retry = not first_run && is_blocked current.status
      raise_if (first_run && not (opt_eq current.current_plan_commit_sha (some head)))
          (delivery_error "Project target Git state changed after Plan approval")
      failed_run ← retry_source retry blocked_approval current w
      unless_first first_run (later_guards current blocked_approval branch head)
      raise_if (is_some current.current_run_id && not retry)
          (delivery_error "Project already has an active Milestone Run")
      raise_if (is_some current.current_candidate_commit_sha)
          (delivery_error "Current Candidate must be decided before another Run")
      stage ← select_stage milestone failed_run
      r ← check_stage_run (
          new_run stage_run_uuid current.triage_id
            (run_identity retry current.current_run_id run_uuid) snapshot.snapshot_id milestone.key
            stage.key (select_input head failed_run) now)
      (updated, w') ←
          queue_transaction snapshot milestone first_run retry blocked_approval failed_run branch r
            w
      ok (
        record {
          state = updated;
          snapshot = snapshot;
          milestone = milestone;
          stage = stage;
          stage_run = r;
          first_run = first_run;
        },
        publish (queued_event first_run updated r) w',
      )
