-- ===== src/Delivery/Service/Decide.antt =====
-- Deciding a Candidate (`decide_milestone_candidate` of src/agentplanex/services/delivery/_service.py).
pub mod Branches
pub mod Accept
pub mod Release
use agent_panel_x.Prelude.{
  [], ◌>>=◌, ◌>>◌, String, Bool, not, ◌||◌, Option, none, some, ◌∷◌, ◌==◌, if◌then◌else◌, opt_eq,
  delivery_error, Result, ok, raise_if,
}
use agent_panel_x.State.{in_progress, blocked, done, ProjectRuntimeState, post_init}
use agent_panel_x.Delivery.Models.{CandidateIdentity, MilestoneSnapshot}
use agent_panel_x.Event.{ExecutionEvent, ExecutionEventType, PayloadValue}
use agent_panel_x.Runtime.{World}
use agent_panel_x.Delivery.Snapshot
use agent_panel_x.Delivery.Driver.Candidate.{CandidateContract, candidate_contract}

pub data Decision : Type 0 where
  accept reject revise : Decision

pub record CandidateDecision : Type 0 where
  pub state : ProjectRuntimeState
  pub identity : CandidateIdentity
  pub decision : Decision
  pub result_snapshot_id : String
  pub next_milestone_key : Option String
  pub completed : Bool
  pub revision_stage_run_id : Option String

-- `_accept_candidate`.
unfoldable pub accept_candidate :
    (candidate : String)
    → MilestoneSnapshot
    → (finished : Bool) → (integrated : String) → ProjectRuntimeState
    → Result ProjectRuntimeState
accept_candidate candidate successor finished integrated context = do
  raise_if (not (opt_eq context.current_candidate_commit_sha (some candidate)))
      (delivery_error "Candidate changed while being accepted")
  post_init (record context {
    status = if finished then done else in_progress;
    git_main_version = some integrated;
    current_snapshot_id = some successor.snapshot_id;
    current_run_id = none;
    current_milestone_key = none;
    current_stage_key = none;
    current_candidate_commit_sha = none;
  })

-- `_reject_candidate` and, with `is_stuck` set, `_block_candidate_revision`; `refusal` is the message
-- of each.
unfoldable pub reject_candidate :
    (refusal candidate : String)
    → MilestoneSnapshot
    → (is_stuck : Bool) → ProjectRuntimeState
    → Result ProjectRuntimeState
reject_candidate refusal candidate successor is_stuck context = do
  raise_if (not (opt_eq context.current_candidate_commit_sha (some candidate)))
      (delivery_error refusal)
  post_init (record context {
    status = if is_stuck then blocked else in_progress;
    current_snapshot_id = some successor.snapshot_id;
    current_run_id = none;
    current_milestone_key = none;
    current_stage_key = none;
    current_candidate_commit_sha = none;
  })

-- The contract once more, inside the transaction.
unfoldable pub recheck : CandidateContract → CandidateIdentity → World → Result CandidateContract
recheck contract expected w = do
  latest ← candidate_contract w.state expected w
  raise_if
      (not (latest.snapshot.snapshot_id == contract.snapshot.snapshot_id)
        || not (latest.milestone.key == contract.milestone.key)
        || not (latest.candidate == contract.candidate))
      (delivery_error "Candidate changed while applying its decision")
  ok latest

-- The event of a decision. The contract has found its Run, Milestone and Candidate to be those of the
-- state.
unfoldable pub decided_event :
    ExecutionEventType → ProjectRuntimeState → CandidateIdentity → String → String → ExecutionEvent
decided_event event_type updated expected successor_id reason = record {
  triage_id = updated.triage_id;
  event_type = event_type;
  payload =
      ("run_id", PayloadValue.str expected.run_id)
      ∷ ("milestone_key", PayloadValue.str expected.milestone_key)
      ∷ ("candidate_commit_sha", PayloadValue.str expected.candidate_commit_sha)
      ∷ ("successor_snapshot_id", PayloadValue.str successor_id)
      ∷ ("reason", PayloadValue.str reason)
      ∷ [];
}

unfoldable pub completed_event : ProjectRuntimeState → String → ExecutionEvent
completed_event updated candidate = record {
  triage_id = updated.triage_id;
  event_type = ExecutionEventType.triage_development_completed;
  payload =
      ("snapshot_id", PayloadValue.opt_str updated.current_snapshot_id)
      ∷ ("candidate_commit_sha", PayloadValue.str candidate)
      ∷ [];
}
