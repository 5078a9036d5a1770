-- ===== src/Planning.antt =====
-- The approval of a Plan (src/agentplanex/services/planning/_service.py): its request with the Hard
-- Gate, its approval with the checkpoint commit, and its rejection.
pub mod Approval
pub mod Checkpoint
pub mod Decisions
pub mod Requests
use agent_panel_x.Prelude.{
  [], ◌>>=◌, ◌>>◌, String, Bool, true, false, not, ◌&&◌, ◌||◌, Option, none, some, List, ◌∷◌, ◌==◌,
  is_some, opt_eq, is_blank, planning_error, Result, ok, err, raise_if, if◌then◌else◌,
}
use agent_panel_x.State.{
  todo, ProjectRuntimeState, is_triage, is_todo, is_in_progress, is_blocked, plan_approval,
  is_plan_approval, post_init,
}
use agent_panel_x.Event.{
  RuntimeContextChangeReason, ExecutionEvent, ExecutionEventType, PayloadValue,
}
use agent_panel_x.Runtime.{World, Action, transition, publish, settle}
use agent_panel_x.Delivery.Models.{is_empty}

-- What Planning reads and commits: the digests of the Plan documents in the worktree and in a commit
-- (_subject.py, with their errors), and the repository.
pub record PlanRepository : Type 0 where
  pub worktree_digest : Result String
  pub commit_digest : String → Result String
  pub changed_paths : Result (List String)
  pub head_sha : Result String
  pub current_branch : Result String
  pub commit_parent : String → Result String
  pub changed_paths_between : String → String → Result (List String)
  pub commit_paths : Result String

pub data PlanReviewDecision : Type 0 where
  plan_pass plan_revise plan_unknown : PlanReviewDecision

pub record PlanReviewResult : Type 0 where
  pub subject_digest : String
  pub decision : PlanReviewDecision
  pub summary : String
  pub required_changes : List String

-- The reviewing agent: what it answers for a subject, and the store after it ran.
abbrev pub PlanHardGate : Type 0
PlanHardGate = String → World → Result PlanReviewResult × World

abbrev pub is_plan_revise : PlanReviewDecision → Bool
is_plan_revise plan_revise = true
is_plan_revise _ = false

abbrev is_plan_pass : PlanReviewDecision → Bool
is_plan_pass plan_pass = true
is_plan_pass _ = false

-- `_validate_review`.
unfoldable pub validate_plan_review : PlanReviewResult → String → Result (Unit {0})
validate_plan_review review subject_digest = do
  raise_if (not (review.subject_digest == subject_digest))
      (planning_error "Plan Hard Gate reviewed a different subject")
  raise_if (is_blank review.summary) (planning_error "Plan Hard Gate returned an empty summary")
  raise_if (is_plan_pass review.decision && not (is_empty review.required_changes))
      (planning_error "Plan Hard Gate pass must not contain required changes")
  raise_if (is_plan_revise review.decision && is_empty review.required_changes)
      (planning_error "Plan Hard Gate revise must contain required changes")

-- `_assert_requestable`.
unfoldable pub assert_requestable : ProjectRuntimeState → Result (Unit {0})
assert_requestable context = do
  raise_if (is_some context.pending_action) (planning_error "Project already has a pending action")
  raise_if
      (not (
        is_triage context.status
        || is_todo context.status
        || is_in_progress context.status
        || is_blocked context.status))
      (planning_error "Plan approval cannot be requested from this status")

-- `_assert_pending_action`.
unfoldable pub assert_pending_action : ProjectRuntimeState → Result (Unit {0})
assert_pending_action context =
    raise_if (not (is_plan_approval context.pending_action))
      (planning_error "Project is not waiting for Plan approval")

-- `_assert_same_pending_plan`.
unfoldable pub assert_same_pending_plan : ProjectRuntimeState → String → Result (Unit {0})
assert_same_pending_plan context expected_digest = do
  assert_pending_action context
  raise_if (not (opt_eq context.pending_plan_subject_digest (some expected_digest)))
      (planning_error "Pending Plan changed while its decision was being applied")

-- The events of an agent invocation, without its identity, the type of its failure and its artifact.
unfoldable pub plan_gate_event : ExecutionEventType → String → String → ExecutionEvent
plan_gate_event event_type triage_id subject_digest = record {
  triage_id = triage_id;
  event_type = event_type;
  payload =
      ("operation", PayloadValue.str "plan_hard_gate")
      ∷ ("subject_digest", PayloadValue.str subject_digest)
      ∷ [];
}

unfoldable pub plan_gate_outcome :
    String → String → Result PlanReviewResult → World → Result PlanReviewResult × World
plan_gate_outcome triage_id subject_digest (ok review) w = (
  ok review,
  publish (plan_gate_event ExecutionEventType.agent_invocation_completed triage_id subject_digest)
      w,
)
plan_gate_outcome triage_id subject_digest (err e) w = (
  err e,
  publish (plan_gate_event ExecutionEventType.agent_invocation_failed triage_id subject_digest) w,
)

-- `_run_hard_gate`.
unfoldable pub run_hard_gate :
    PlanHardGate → String → String → World → Result PlanReviewResult × World
run_hard_gate gate triage_id subject_digest w =
    let started =
      publish (plan_gate_event ExecutionEventType.agent_invocation_started triage_id subject_digest)
        w in
    let (answer, w') = gate subject_digest started in
    plan_gate_outcome triage_id subject_digest
      (do review ← answer; validate_plan_review review subject_digest; ok review) w'

pub record PlanApprovalRequest : Type 0 where
  pub state : ProjectRuntimeState
  pub accepted : Bool
  pub subject_digest : String
  pub review : Option PlanReviewResult

-- The mutation `request`.
unfoldable pub request_plan : String → ProjectRuntimeState → Result ProjectRuntimeState
request_plan subject_digest current = do
  assert_requestable current
  post_init (record current {
    status = if is_triage current.status then todo else current.status;
    pending_action = some plan_approval;
    pending_plan_subject_digest = some subject_digest;
  })

unfoldable pub plan_revises : Option PlanReviewResult → Bool
plan_revises none = false
plan_revises (some review) = is_plan_revise review.decision

unfoldable pub plan_requested_event : ProjectRuntimeState → String → Bool → ExecutionEvent
plan_requested_event updated subject_digest gated = record {
  triage_id = updated.triage_id;
  event_type = ExecutionEventType.plan_approval_requested;
  payload =
      ("subject_digest", PayloadValue.str subject_digest)
      ∷ ("hard_gate_invoked", PayloadValue.flag gated)
      ∷ [];
}

-- Everything after the review.
unfoldable pub finish_request :
    PlanRepository → String → Option PlanReviewResult → Action PlanApprovalRequest
finish_request repository subject_digest review w = do
  assert_requestable w.state
  again ← repository.worktree_digest
  raise_if (not (again == subject_digest))
      (planning_error "Plan specification documents changed while requesting approval")
  if plan_revises review
      then ok (
        record {
          state = w.state;
          accepted = false;
          subject_digest = subject_digest;
          review = review;
        },
        w,
      )
      else (do
        (updated, w') ←
            transition RuntimeContextChangeReason.plan_approval_requested
              (request_plan subject_digest) w
        ok (
          record {
            state = updated;
            accepted = true;
            subject_digest = subject_digest;
            review = review;
          },
          publish (plan_requested_event updated subject_digest (is_some review)) w',
        ))

unfoldable pub requested_subject : PlanRepository → World → Result String
requested_subject repository w = do assert_requestable w.state; repository.worktree_digest

unfoldable pub plan_reviewed :
    PlanRepository → String → Result PlanReviewResult → World → Result PlanApprovalRequest × World
plan_reviewed repository subject_digest (err e) w = (err e, w)
plan_reviewed repository subject_digest (ok review) w =
    settle (finish_request repository subject_digest (some review) w) w

unfoldable pub request_subject :
    PlanRepository → PlanHardGate → Result String → World → Result PlanApprovalRequest × World
request_subject repository gate (err e) w = (err e, w)
request_subject repository gate (ok subject_digest) w =
    let (answer, w') = run_hard_gate gate w.state.triage_id subject_digest w in
    if is_in_progress w.state.status
    then plan_reviewed repository subject_digest answer w'
    else settle (finish_request repository subject_digest none w) w

-- `request_plan_approval`; `before` and `after` are the repository before and after the review.
unfoldable pub request_plan_approval :
    (before after : PlanRepository) → PlanHardGate → World → Result PlanApprovalRequest × World
request_plan_approval before after gate w =
    request_subject after gate (requested_subject before w) w
