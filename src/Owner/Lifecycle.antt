-- ===== src/Owner/Lifecycle.antt =====
-- The life of an activation inside the transactions of its caller (`_OwnerActivationLifecycle` of
-- src/agentplanex/services/project_runtime_context/_activation.py).
pub mod Claiming
pub mod Moves
pub mod Refinement
pub mod Finishing
use agent_panel_x.Prelude.{
  ◌>>=◌, ◌>>◌, ℕ, String, Bool, true, false, not, ◌&&◌, ◌||◌, Option, none, some, List, is_none,
  is_some, is_blank, strip, value_error, runtime_error, if◌then◌else◌, Result, ok, err, raise_if,
  or_raise,
}
use agent_panel_x.Runtime.{OwnerWorkState, idle, runnable, waiting_for_control}
use agent_panel_x.Owner.{
  ProjectOwnerTaskType, pending, model, tool, OwnerActivation, is_pending, is_running,
  is_interrupted, is_tool, check_activation,
}
use agent_panel_x.Owner.Activations.{
  get_unfinished, get_latest, insert, claim_next, mark_failed, mark_interrupted, mark_completed,
  is_interrupt_requested,
}

-- `AgentExitStatus` (src/agentplanex/project_owner_agent/contracts.py).
pub data AgentExitStatus : Type 0 where
  reply_to_human plan_approval_requested first_run_approval_requested : AgentExitStatus
  blocked_run_approval_requested milestone_run_queued triage_development_completed : AgentExitStatus
  agent_task_queued user_interrupted manual_drive_failed repeated_format_error : AgentExitStatus
  repeated_candidate_rejection repeated_candidate_revision step_limit_exceeded : AgentExitStatus
  unhandled_exception : AgentExitStatus

pub record AgentExit : Type 0 where
  pub status : AgentExitStatus
  pub content : String

unfoldable pub exit_value : AgentExitStatus → String
exit_value reply_to_human = "ReplyToHuman"
exit_value plan_approval_requested = "PlanApprovalRequested"
exit_value first_run_approval_requested = "FirstRunApprovalRequested"
exit_value blocked_run_approval_requested = "BlockedRunApprovalRequested"
exit_value milestone_run_queued = "MilestoneRunQueued"
exit_value triage_development_completed = "TriageDevelopmentCompleted"
exit_value agent_task_queued = "AgentTaskQueued"
exit_value user_interrupted = "UserInterrupted"
exit_value manual_drive_failed = "ManualDriveFailed"
exit_value repeated_format_error = "RepeatedFormatError"
exit_value repeated_candidate_rejection = "RepeatedCandidateRejection"
exit_value repeated_candidate_revision = "RepeatedCandidateRevision"
exit_value step_limit_exceeded = "StepLimitExceeded"
exit_value unhandled_exception = "UnhandledException"

-- `_FAILED_EXIT_STATUSES`.
abbrev pub is_failed_exit : AgentExitStatus → Bool
is_failed_exit manual_drive_failed = true
is_failed_exit repeated_format_error = true
is_failed_exit repeated_candidate_rejection = true
is_failed_exit repeated_candidate_revision = true
is_failed_exit step_limit_exceeded = true
is_failed_exit unhandled_exception = true
is_failed_exit _ = false

abbrev pub is_user_interrupted : AgentExitStatus → Bool
is_user_interrupted user_interrupted = true
is_user_interrupted _ = false

-- The identity of the latest activation, if that was interrupted.
unfoldable pub previous_interrupted : Option OwnerActivation → Option String
previous_interrupted none = none
previous_interrupted (some a) = if is_interrupted a.status then some a.activation_id else none

abbrev pub new_activation :
    (activation_id triage_id : String)
    → ProjectOwnerTaskType
    → (message_id : String) → (summary_id previous : Option String) → (now : ℕ) → OwnerActivation
new_activation activation_id triage_id task_type message_id summary_id previous now = record {
  activation_id = activation_id;
  triage_id = triage_id;
  task_type = task_type;
  message_id = message_id;
  summary_id = summary_id;
  previous_interrupted_activation_id = previous;
  interrupt_requested = false;
  status = pending;
  driver_mode = none;
  created_at = now;
  started_at = none;
  finished_at = none;
  failure = none;
}

-- `submit_input`; `activation_id` is the fresh identity, `now` the clock.
unfoldable pub submit_input :
    (activation_id : String)
    → (now : ℕ) → (triage_id : String) → ProjectOwnerTaskType
    → (message_id : String) → (summary_id : Option String) → List OwnerActivation
    → Result (OwnerActivation × List OwnerActivation)
submit_input activation_id now triage_id task_type message_id summary_id rows = do
  raise_if (is_some (get_unfinished triage_id rows))
      (value_error "Project Owner already has unfinished work")
  let previous = previous_interrupted (get_latest triage_id rows)
  activation ←
      check_activation
        (new_activation activation_id triage_id task_type message_id summary_id previous now)
  rows' ← insert activation rows
  ok (activation, rows')

-- `work_state`.
abbrev pub state_of : Option OwnerActivation → OwnerWorkState
state_of none = OwnerWorkState.idle
state_of (some a) =
    if is_pending a.status && is_none a.driver_mode
    then OwnerWorkState.runnable
    else if is_running a.status
    then OwnerWorkState.running
    else OwnerWorkState.waiting_for_control

abbrev pub work_state : String → List OwnerActivation → OwnerWorkState
work_state triage_id rows = state_of (get_unfinished triage_id rows)

-- A claim that found work takes it: `claim_next` must give the row.
claimed_or_raise :
    Option (OwnerActivation × List OwnerActivation)
    → Result (OwnerActivation × List OwnerActivation)
claimed_or_raise row = or_raise row (runtime_error "Pending Owner activation could not be claimed")

-- `claim_for_model`, once the unfinished activation is read; `none` where nothing is unfinished.
claim_model :
    String
    → ℕ
    → List OwnerActivation
    → Option OwnerActivation
    → Result (Option (OwnerActivation × List OwnerActivation))
unfolding claimed_or_raise
claim_model triage_id started_at rows none = ok none
claim_model triage_id started_at rows (some unfinished) = do
  raise_if (is_running unfinished.status)
      (value_error "Project Owner activation is already running")
  raise_if (is_tool unfinished.driver_mode)
      (value_error "Project Owner activation is already bound to Tool mode")
  row ← claim_next triage_id started_at model rows
  claimed ← claimed_or_raise row
  ok (some claimed)

unfoldable pub claim_for_model :
    String → ℕ → List OwnerActivation → Result (Option (OwnerActivation × List OwnerActivation))
unfolding claim_model
claim_for_model triage_id started_at rows =
    claim_model triage_id started_at rows (get_unfinished triage_id rows)

-- `_ActivationClaim`, with the table after the claim.
pub record ActivationClaim : Type 0 where
  pub activation : OwnerActivation
  pub started : Bool

unfoldable pub claim_tool :
    String
    → ℕ
    → Bool
    → List OwnerActivation
    → OwnerActivation
    → Result (ActivationClaim × List OwnerActivation)
unfolding claimed_or_raise
claim_tool triage_id started_at allow_running rows unfinished =
    if is_running unfinished.status
    then (if allow_running && is_tool unfinished.driver_mode
        then ok (record { activation = unfinished; started = false }, rows)
        else err (value_error "Project Owner activation already has a running step"))
    else do
      row ← claim_next triage_id started_at tool rows
      claimed ← claimed_or_raise row
      ok (record { activation = claimed.0; started = is_none unfinished.driver_mode }, claimed.1)

-- `claim_for_tool`.
unfoldable pub claim_for_tool :
    String → ℕ → Bool → List OwnerActivation → Result (ActivationClaim × List OwnerActivation)
unfolding claim_tool
claim_for_tool triage_id started_at allow_running rows = do
  unfinished ←
      or_raise (get_unfinished triage_id rows)
        (value_error "Project Owner has no unfinished activation")
  claim_tool triage_id started_at allow_running rows unfinished

-- `result.content.strip() or result.status.value`.
unfoldable pub failure_of : AgentExit → String
failure_of result =
    if is_blank result.content then exit_value result.status else strip result.content

-- `finish`.
unfoldable pub finish :
    OwnerActivation
    → AgentExit
    → ℕ
    → List OwnerActivation
    → Result (OwnerActivation × List OwnerActivation)
finish activation result finished_at rows =
    if is_failed_exit result.status
    then mark_failed activation.activation_id finished_at (failure_of result) rows
    else if is_user_interrupted result.status
        || is_interrupt_requested activation.activation_id rows
    then mark_interrupted activation.activation_id finished_at rows
    else mark_completed activation.activation_id finished_at rows
