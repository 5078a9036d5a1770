-- ===== src/Delivery/Service/Runs.antt =====
-- Requesting, approving and rejecting a Run (`request_next_milestone`, `approve_blocked_run`,
-- `reject_blocked_run`, `start_first_run` and `reject_first_run` of _service.py).
pub mod Requests
use agent_panel_x.Prelude.{
  [], ◌>>=◌, ◌>>◌, ℕ, String, true, false, not, ◌||◌, none, some, ◌∷◌, ◌==◌, if◌then◌else◌, is_none,
  is_some, opt_eq, normalize, delivery_error, Result, ok, raise_if,
}
use agent_panel_x.State.{
  todo, ready, first_run_approval, blocked_run_approval, ProjectRuntimeState, is_todo, is_ready,
  is_blocked, is_first_run_approval, is_blocked_run_approval, post_init,
}
use agent_panel_x.Delivery.Models.{Milestone, MilestoneSnapshot}
use agent_panel_x.Event.{
  RuntimeContextChangeReason, ExecutionEvent, ExecutionEventType, PayloadValue,
}
use agent_panel_x.Runtime.{Action, transition, publish}
use agent_panel_x.Delivery.Git.{Git}
use agent_panel_x.Delivery.Driver.{
  snapshot_for_context, first_pending_milestone, assert_retryable_blocked,
}
use agent_panel_x.Delivery.Driver.Queue.{MilestoneRunQueued, queue_run}
use agent_panel_x.Delivery.Service.{assert_specs}

pub record ApprovalRequested : Type 0 where
  pub state : ProjectRuntimeState
  pub snapshot : MilestoneSnapshot
  pub milestone : Milestone

-- The three results of `request_next_milestone`.
pub data NextMilestone : Type 0 where
  first_run_requested : ApprovalRequested → NextMilestone
  blocked_run_requested : ApprovalRequested → NextMilestone
  run_queued : MilestoneRunQueued → NextMilestone

-- `_request_first_run`.
unfoldable pub request_first_run :
    MilestoneSnapshot → ProjectRuntimeState → Result ProjectRuntimeState
request_first_run snapshot context = do
  raise_if
      (not (is_todo context.status || is_blocked context.status)
        || is_some context.pending_action
        || is_some context.rolling_started_at
        || is_some context.current_run_id
        || is_some context.current_candidate_commit_sha)
      (delivery_error "Project changed while requesting its first Run")
  raise_if (not (opt_eq context.current_snapshot_id (some snapshot.snapshot_id)))
      (delivery_error "Milestone Snapshot changed while requesting first Run")
  post_init (record context { status = ready; pending_action = some first_run_approval })

unfoldable pub requested_event :
    ExecutionEventType → ProjectRuntimeState → MilestoneSnapshot → Milestone → ExecutionEvent
requested_event event_type updated snapshot milestone = record {
  triage_id = updated.triage_id;
  event_type = event_type;
  payload =
      ("snapshot_id", PayloadValue.str snapshot.snapshot_id)
      ∷ ("milestone_key", PayloadValue.str milestone.key)
      ∷ [];
}

unfoldable pub retry_event :
    ProjectRuntimeState → ProjectRuntimeState → MilestoneSnapshot → Milestone → ExecutionEvent
retry_event current updated snapshot milestone = record {
  triage_id = updated.triage_id;
  event_type = ExecutionEventType.blocked_run_approval_requested;
  payload =
      ("snapshot_id", PayloadValue.str snapshot.snapshot_id)
      ∷ ("milestone_key", PayloadValue.str milestone.key)
      ∷ ("failed_run_id", PayloadValue.opt_str current.current_run_id)
      ∷ ("failed_stage_key", PayloadValue.opt_str current.current_stage_key)
      ∷ [];
}

unfoldable pub request_first :
    ProjectRuntimeState → MilestoneSnapshot → Milestone → Action NextMilestone
request_first current snapshot milestone w = do
  raise_if
      (not (is_todo current.status || is_blocked current.status) || is_some current.pending_action)
      (delivery_error "First Run can only be requested from TODO or BLOCKED with no pending action")
  raise_if (is_some current.current_run_id)
      (delivery_error "First Run already has an active Milestone Run")
  (updated, w') ←
      transition RuntimeContextChangeReason.first_run_approval_requested
        (request_first_run snapshot) w
  ok (
    first_run_requested (record { state = updated; snapshot = snapshot; milestone = milestone }),
    publish
        (requested_event ExecutionEventType.first_run_approval_requested updated snapshot milestone)
        w',
  )

unfoldable pub request_retry :
    ProjectRuntimeState → MilestoneSnapshot → Milestone → Action NextMilestone
request_retry current snapshot milestone w = do
  failed_run ← assert_retryable_blocked false current w
  (updated, w') ←
      transition RuntimeContextChangeReason.blocked_run_approval_requested
        (λ latest. post_init (record latest { pending_action = some blocked_run_approval })) w
  ok (
    blocked_run_requested (record { state = updated; snapshot = snapshot; milestone = milestone }),
    publish (retry_event current updated snapshot milestone) w',
  )

unfoldable pub request_queue :
    Git
    → ProjectRuntimeState
    → MilestoneSnapshot
    → Milestone
    → ℕ
    → (run_uuid stage_run_uuid : String) → Action NextMilestone
request_queue git current snapshot milestone now run_uuid stage_run_uuid w = do
  (receipt, w') ← queue_run git current snapshot milestone false false now run_uuid stage_run_uuid w
  ok (run_queued receipt, w')

-- `request_next_milestone`.
unfoldable pub request_next_milestone :
    Git → ℕ → (run_uuid stage_run_uuid : String) → Action NextMilestone
request_next_milestone git now run_uuid stage_run_uuid w = do
  snapshot ← snapshot_for_context w.state w
  milestone ← first_pending_milestone snapshot
  assert_specs git none w.state
  if is_none w.state.rolling_started_at
      then request_first w.state snapshot milestone w
      else if is_blocked w.state.status
      then request_retry w.state snapshot milestone w
      else request_queue git w.state snapshot milestone now run_uuid stage_run_uuid w

unfoldable pub approved_event : MilestoneRunQueued → ExecutionEvent
approved_event receipt = record {
  triage_id = receipt.state.triage_id;
  event_type = ExecutionEventType.blocked_run_approved;
  payload =
      ("run_id", PayloadValue.str receipt.stage_run.run_id)
      ∷ ("stage_run_id", PayloadValue.str receipt.stage_run.stage_run_id)
      ∷ ("snapshot_id", PayloadValue.str receipt.snapshot.snapshot_id)
      ∷ ("milestone_key", PayloadValue.str receipt.milestone.key)
      ∷ ("stage_key", PayloadValue.str receipt.stage.key)
      ∷ [];
}

-- `approve_blocked_run`.
unfoldable pub approve_blocked_run :
    Git → ℕ → (run_uuid stage_run_uuid : String) → Action MilestoneRunQueued
approve_blocked_run git now run_uuid stage_run_uuid w = do
  snapshot ← snapshot_for_context w.state w
  milestone ← first_pending_milestone snapshot
  assert_specs git none w.state
  raise_if (not (is_blocked_run_approval w.state.pending_action))
      (delivery_error "Project is not waiting for blocked Run approval")
  (receipt, w') ← queue_run git w.state snapshot milestone false true now run_uuid stage_run_uuid w
  ok (receipt, publish (approved_event receipt) w')

-- `start_first_run`.
unfoldable pub start_first_run :
    Git → ℕ → (run_uuid stage_run_uuid : String) → Action MilestoneRunQueued
start_first_run git now run_uuid stage_run_uuid w = do
  snapshot ← snapshot_for_context w.state w
  milestone ← first_pending_milestone snapshot
  assert_specs git none w.state
  raise_if
      (not (is_ready w.state.status)
        || not (is_first_run_approval w.state.pending_action)
        || is_some w.state.rolling_started_at)
      (delivery_error "Project is not waiting for its first Run approval")
  queue_run git w.state snapshot milestone true false now run_uuid stage_run_uuid w

unfoldable pub feedback_event : ExecutionEventType → ProjectRuntimeState → String → ExecutionEvent
feedback_event event_type updated feedback = record {
  triage_id = updated.triage_id;
  event_type = event_type;
  payload = ("feedback", PayloadValue.str feedback) ∷ [];
}

-- `reject_blocked_run`.
unfoldable pub reject_blocked_run : String → Action ProjectRuntimeState
reject_blocked_run feedback w = do
  raise_if (normalize feedback == "")
      (delivery_error "Blocked Run rejection feedback must not be empty")
  raise_if (not (is_blocked w.state.status) || not (is_blocked_run_approval w.state.pending_action))
      (delivery_error "Project is not waiting for blocked Run approval")
  (updated, w') ←
      transition RuntimeContextChangeReason.blocked_run_rejected
        (λ latest. post_init (record latest { pending_action = none })) w
  ok (
    updated,
    publish (feedback_event ExecutionEventType.blocked_run_rejected updated (normalize feedback))
        w',
  )

-- `reject_first_run`.
unfoldable pub reject_first_run : String → Action ProjectRuntimeState
reject_first_run feedback w = do
  raise_if (normalize feedback == "")
      (delivery_error "First Run rejection feedback must not be empty")
  raise_if (not (is_ready w.state.status) || not (is_first_run_approval w.state.pending_action))
      (delivery_error "Project is not waiting for its first Run approval")
  (updated, w') ←
      transition RuntimeContextChangeReason.first_run_approval_rejected
        (λ latest. post_init (record latest { status = todo; pending_action = none })) w
  ok (
    updated,
    publish
        (feedback_event ExecutionEventType.first_run_approval_rejected updated (normalize feedback))
        w',
  )
