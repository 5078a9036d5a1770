-- ===== src/Takeover/Service/Answer.antt =====
-- The answer of the external Agent of a takeover, and what it is tested against (`_result_mismatch` of
-- src/agentplanex/services/auto_takeover/_service.py).
use Prim.Native.String
use agent_panel_x.Prelude.{
  String, Bool, false, not, ◌||◌, Option, none, some, ◌==◌, is_none, opt_eq, if◌then◌else◌,
}
use agent_panel_x.State.{ProjectRuntimeState, is_blocked, is_in_progress}
use agent_panel_x.Runtime.Changes.{status_value}
use agent_panel_x.Delivery.Models.{StageRun, is_queued}
use agent_panel_x.Delivery.StageRuns
use agent_panel_x.Takeover.{
  ArtifactDescriptor, TakeoverRun, TakeoverAttempt, get, get_active_attempt,
}
use agent_panel_x.Takeover.Service.{TakeoverStore, state_of, is_run_active}

pub data Decision : Type 0 where
  yes no : Decision

pub record AutoTakeoverOutput : Type 0 where
  pub decision : Decision
  pub attribution : Option ArtifactDescriptor

-- `_result_mismatch`.
unfoldable pub run_mismatch : Option TakeoverRun → Option String
run_mismatch run =
    if not (is_run_active run) then some "AutoTakeover Run is no longer active" else none

unfoldable pub attempt_mismatch : TakeoverAttempt → Option TakeoverAttempt → Option String
attempt_mismatch attempt none = some "AutoTakeover Attempt fence is no longer current"
attempt_mismatch attempt (some current) =
    if not (current.attempt_id == attempt.attempt_id)
      || not (opt_eq current.fence_token attempt.fence_token)
    then some "AutoTakeover Attempt fence is no longer current"
    else none

abbrev pub is_queued_row : Option StageRun → Bool
is_queued_row none = false
is_queued_row (some row) = is_queued row.status

unfoldable pub decision_mismatch :
    Decision
    → Option ArtifactDescriptor
    → Option StageRun
    → Option ProjectRuntimeState
    → Option String
decision_mismatch decision attribution active none = some "Runtime State disappeared"
decision_mismatch Decision.yes attribution active (some state) =
    if not (is_in_progress state.status)
    then some (String.◌++◌ "YES requires IN_PROGRESS, observed " (status_value state.status))
    else if not (is_queued_row active)
    then some "YES requires exactly one untouched QUEUED StageRun"
    else none
decision_mismatch Decision.no attribution active (some state) =
    if not (is_blocked state.status)
    then some (String.◌++◌ "NO requires BLOCKED, observed " (status_value state.status))
    else if is_none attribution
    then some "NO requires a published Attribution Artifact"
    else none

-- The first test that fails.
unfoldable pub or_next : Option String → Option String → Option String
or_next none later = later
or_next (some text) later = some text

unfoldable pub result_mismatch :
    String
    → (run_id : String) → TakeoverAttempt
    → AutoTakeoverOutput
    → TakeoverStore
    → Option String
result_mismatch triage_id run_id attempt result s =
    or_next (run_mismatch (get run_id s.takeovers)) (
      or_next (attempt_mismatch attempt (get_active_attempt run_id s.takeovers)) (
        decision_mismatch result.decision result.attribution
          (StageRuns.get_active triage_id s.world.stage_runs) (state_of triage_id s.world)))
