-- ===== src/Delivery/Service/Publish.antt =====
-- `update_milestones` with its Hard Gate (`_run_milestone_hard_gate` of
-- src/agentplanex/services/delivery/_service.py).
pub mod Gate
pub mod Update
pub mod Review
use agent_panel_x.Prelude.{
  [], ◌>>=◌, ◌>>◌, ℕ, String, Bool, true, false, not, Option, none, some, List, ◌∷◌, ◌==◌,
  if◌then◌else◌, is_some, length, normalize, delivery_error, Result, ok, err, raise_if,
}
use agent_panel_x.State.{is_in_progress}
use agent_panel_x.Delivery.Models.{Milestone, MilestoneSnapshot}
use agent_panel_x.Event.{
  RuntimeContextChangeReason, ExecutionEvent, ExecutionEventType, PayloadValue,
}
use agent_panel_x.Runtime.{settle, World, Action, transition, publish}
use agent_panel_x.Delivery.Git.{Git}
use agent_panel_x.Delivery.Service.{
  assert_specs, prepare_milestone_view, MilestoneReviewResult, is_revise, validate_review,
  block_after_rejection, publish_view, MilestonesUpdated,
}

-- The reviewing agent: what it answers for a View and its digest, and the store after it ran.
abbrev pub MilestoneHardGate : Type 0
MilestoneHardGate = List Milestone → String → World → Result MilestoneReviewResult × World

-- The events of an agent invocation, without its identity, the type of its failure and its artifact.
unfoldable pub gate_event : ExecutionEventType → String → String → ExecutionEvent
gate_event event_type triage_id subject_digest = record {
  triage_id = triage_id;
  event_type = event_type;
  payload =
      ("operation", PayloadValue.str "milestone_hard_gate")
      ∷ ("subject_digest", PayloadValue.str subject_digest)
      ∷ [];
}

-- `try: ... except Exception: publish the failure; raise`.
unfoldable pub gate_outcome :
    String → String → Result MilestoneReviewResult → World → Result MilestoneReviewResult × World
gate_outcome triage_id subject_digest (ok review) w = (
  ok review,
  publish (gate_event ExecutionEventType.agent_invocation_completed triage_id subject_digest) w,
)
gate_outcome triage_id subject_digest (err e) w = (
  err e,
  publish (gate_event ExecutionEventType.agent_invocation_failed triage_id subject_digest) w,
)

abbrev pub gate_started : String → String → World → World
gate_started triage_id subject_digest =
    publish (gate_event ExecutionEventType.agent_invocation_started triage_id subject_digest)

-- `_run_milestone_hard_gate`.
unfoldable pub run_milestone_hard_gate :
    MilestoneHardGate
    → String
    → List Milestone
    → String
    → World
    → Result MilestoneReviewResult × World
run_milestone_hard_gate gate triage_id view subject_digest w =
    let (answer, w') = gate view subject_digest (gate_started triage_id subject_digest w) in
    gate_outcome triage_id subject_digest
      (do review ← answer; validate_review review subject_digest; ok review) w'

unfoldable pub updated_event : MilestoneSnapshot → String → Bool → ExecutionEvent
updated_event snapshot subject_digest gated = record {
  triage_id = snapshot.triage_id;
  event_type = ExecutionEventType.milestones_updated;
  payload =
      ("snapshot_id", PayloadValue.str snapshot.snapshot_id)
      ∷ ("previous_snapshot_id", PayloadValue.opt_str snapshot.previous_snapshot_id)
      ∷ ("plan_commit_sha", PayloadValue.str snapshot.plan_commit_sha)
      ∷ ("milestone_count", PayloadValue.number (length snapshot.milestones))
      ∷ ("subject_digest", PayloadValue.str subject_digest)
      ∷ ("hard_gate_invoked", PayloadValue.flag gated)
      ∷ [];
}

unfoldable pub revises : Option MilestoneReviewResult → Bool
revises none = false
revises (some review) = is_revise review.decision

-- Everything after the review: the View is prepared again from the state as it is then, and is either
-- blocked by the review or published.
unfoldable pub finish_update :
    Git
    → (List Milestone → String)
    → String
    → List Milestone
    → String
    → Option MilestoneReviewResult
    → String
    → ℕ
    → Action MilestonesUpdated
finish_update git digest reason pending_milestones subject_digest review snapshot_uuid now w = do
  prepared ← prepare_milestone_view w.state pending_milestones w
  assert_specs git none w.state
  raise_if (not (digest prepared.view == subject_digest))
      (delivery_error "Milestones changed while the Hard Gate was reviewing them")
  if revises review
      then (do
        (updated, w') ←
            transition RuntimeContextChangeReason.milestone_hard_gate_rejected block_after_rejection
              w
        ok (
          record {
            state = updated;
            snapshot = none;
            accepted = false;
            subject_digest = subject_digest;
            review = review;
          },
          w',
        ))
      else (do
        (snapshot, w') ← publish_view prepared reason snapshot_uuid now w
        ok (
          record {
            state = w'.state;
            snapshot = some snapshot;
            accepted = true;
            subject_digest = subject_digest;
            review = review;
          },
          publish (updated_event snapshot subject_digest (is_some review)) w',
        ))

unfoldable pub first_phase :
    Git
    → (List Milestone → String)
    → String
    → List Milestone
    → World
    → Result (List Milestone × String)
first_phase git digest reason pending_milestones w = do
  raise_if (normalize reason == "") (delivery_error "Milestone update reason must not be empty")
  prepared ← prepare_milestone_view w.state pending_milestones w
  assert_specs git none w.state
  ok (prepared.view, digest prepared.view)

unfoldable pub reviewed :
    Git
    → (List Milestone → String)
    → String
    → List Milestone
    → String
    → String
    → ℕ
    → Result MilestoneReviewResult
    → World
    → Result MilestonesUpdated × World
reviewed git digest reason pending_milestones subject_digest snapshot_uuid now (err e) w =
    (err e, w)
reviewed git digest reason pending_milestones subject_digest snapshot_uuid now (ok review) w =
    settle
      (finish_update git digest reason pending_milestones subject_digest (some review) snapshot_uuid
        now w)
      w

unfoldable pub second_phase :
    Git
    → MilestoneHardGate
    → (List Milestone → String)
    → String
    → List Milestone
    → String
    → ℕ
    → Result (List Milestone × String)
    → World
    → Result MilestonesUpdated × World
second_phase git gate digest reason pending_milestones snapshot_uuid now (err e) w = (err e, w)
second_phase git gate digest reason pending_milestones snapshot_uuid now (ok (view, subject)) w =
    let (answer, w') = run_milestone_hard_gate gate w.state.triage_id view subject w in
    if is_in_progress w.state.status
    then reviewed git digest reason pending_milestones subject snapshot_uuid now answer w'
    else settle
        (finish_update git digest reason pending_milestones subject none snapshot_uuid now w) w

-- `update_milestones`; `before` and `after` are the repository as the two checks of the Specs read it.
unfoldable pub update_milestones :
    (before after : Git)
    → MilestoneHardGate
    → (digest : List Milestone → String) → (reason : String) → List Milestone
    → (snapshot_uuid : String) → ℕ
    → World
    → Result MilestonesUpdated × World
update_milestones before after gate digest reason pending_milestones snapshot_uuid now w =
    second_phase after gate digest (normalize reason) pending_milestones snapshot_uuid now
      (first_phase before digest reason pending_milestones w) w
