-- ===== src/State.antt =====
-- The persisted state of one Feature Runtime and the checks that every construction of it, `replace`
-- included, goes through (src/agentplanex/domains/project_runtime_state.py).
pub mod Validity
use agent_panel_x.Prelude.{
  ◌>>=◌, ◌>>◌, ℕ, String, Bool, true, false, not, ◌&&◌, ◌||◌, Option, none, some, ◌==◌, is_some,
  is_blank, value_error, Result, ok, raise_if,
}

-- The set that `status` is tested against.
pub data Status : Type 0 where
  triage todo ready in_progress blocked done : Status

-- The set that `pending_action` is tested against, without `None`.
pub data PendingAction : Type 0 where
  plan_approval first_run_approval blocked_run_approval : PendingAction

pub record ProjectRuntimeState : Type 0 where
  pub triage_id : String
  pub idea : Option String
  pub status : Status
  pub pending_action : Option PendingAction
  pub git_branch : Option String
  pub git_main_version : Option String
  pub rolling_started_at : Option ℕ
  pub current_plan_commit_sha : Option String
  pub pending_plan_subject_digest : Option String
  pub current_snapshot_id : Option String
  pub current_run_id : Option String
  pub current_milestone_key : Option String
  pub current_stage_key : Option String
  pub current_candidate_commit_sha : Option String
  pub blocked_reason : Option String
  pub blocked_capability : Option String
  pub blocked_previous_status : Option String

-- `status == ...`, one test for each value.
abbrev pub is_triage : Status → Bool
is_triage triage = true
is_triage _ = false

abbrev pub is_todo : Status → Bool
is_todo todo = true
is_todo _ = false

abbrev pub is_ready : Status → Bool
is_ready ready = true
is_ready _ = false

abbrev pub is_in_progress : Status → Bool
is_in_progress in_progress = true
is_in_progress _ = false

abbrev pub is_blocked : Status → Bool
is_blocked blocked = true
is_blocked _ = false

abbrev pub is_done : Status → Bool
is_done done = true
is_done _ = false

abbrev pub is_plan_approval : Option PendingAction → Bool
is_plan_approval (some plan_approval) = true
is_plan_approval _ = false

abbrev pub is_first_run_approval : Option PendingAction → Bool
is_first_run_approval (some first_run_approval) = true
is_first_run_approval _ = false

abbrev pub is_blocked_run_approval : Option PendingAction → Bool
is_blocked_run_approval (some blocked_run_approval) = true
is_blocked_run_approval _ = false

-- `isinstance(value, str) and value.strip()`.
has_text : Option String → Bool
has_text none = false
has_text (some s) = not (is_blank s)

restores_active : Option String → Bool
restores_active none = false
restores_active (some s) = s == "TODO" || s == "IN_PROGRESS"

-- `__post_init__`: the state as it was given, or the error that the constructor raises.
unfoldable pub post_init : ProjectRuntimeState → Result ProjectRuntimeState
unfolding has_text restores_active
post_init s = do
  raise_if (is_blank triage_id) (value_error "triage_id must not be empty")
  raise_if
      ((is_some blocked_reason || is_some blocked_capability || is_some blocked_previous_status)
        && not (
            has_text blocked_reason
            && has_text blocked_capability
            && has_text blocked_previous_status))
      (value_error "User-intervention blocker fields must be set together")
  raise_if (is_some blocked_reason && not (is_blocked status))
      (value_error "A user-intervention blocker requires BLOCKED status")
  raise_if (is_some blocked_reason && not (restores_active blocked_previous_status))
      (value_error "A user-intervention blocker must restore TODO or IN_PROGRESS")
  ok s
  where
    open s use {triage_id, status, blocked_reason, blocked_capability, blocked_previous_status}
