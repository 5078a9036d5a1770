-- ===== src/Delivery/Service.antt =====
-- Publication of Milestone Views (`update_milestones` of src/agentplanex/services/delivery/_service.py).
pub mod Runs
pub mod Publish
pub mod History
pub mod Target
pub mod Decide
use agent_panel_x.Prelude.{
  ◌>>=◌, ◌>>◌, ℕ, String, Bool, true, false, not, ◌&&◌, ◌||◌, Option, none, some, List, ◌==◌,
  if◌then◌else◌, is_none, is_some, opt_eq, all, is_blank, lookup_error, delivery_error, Result, ok,
  raise_if, or_raise,
}
use agent_panel_x.State.{
  in_progress, blocked, ProjectRuntimeState, is_todo, is_in_progress, is_blocked, post_init,
}
use agent_panel_x.Delivery.Models.{
  pending, Milestone, MilestoneSnapshot, is_pending, is_empty, check_snapshot, or_empty,
}
use agent_panel_x.Event.{RuntimeContextChangeReason}
use agent_panel_x.Runtime.{World, transition}
use agent_panel_x.Delivery.Snapshot
use agent_panel_x.Delivery.Snapshot.{merge_pending_milestones}
use agent_panel_x.Delivery.Git.{Git, as_delivery}
use agent_panel_x.Delivery.Driver.{assert_retryable_blocked}

-- The messages of the two checks below.
unfoldable pub unapproved : Option String → String
unapproved none = "Delivery requires an approved Plan commit"
unapproved (some candidate) = "Candidate acceptance requires an approved Plan commit"

unfoldable pub specs_changed : Option String → String
specs_changed none = "Canonical Plan Specs changed after user approval"
specs_changed (some candidate) = "Candidate changes canonical Plan Specs and cannot be accepted"

-- `_assert_approved_specs`, and `_assert_candidate_preserves_specs` with the Candidate as the target.
unfoldable pub assert_specs : Git → Option String → ProjectRuntimeState → Result (Unit {0})
assert_specs git target context = do
  plan_commit_sha ← or_raise context.current_plan_commit_sha (delivery_error (unapproved target))
  changed ← as_delivery (git.paths_changed plan_commit_sha target)
  raise_if (not (is_empty changed)) (delivery_error (specs_changed target))

unfoldable pub unless_no_run : Option String → ProjectRuntimeState → World → Result (Unit {0})
unless_no_run none context w = ok tt
unless_no_run (some run_id) context w = do
  raise_if (not (is_blocked context.status))
      (delivery_error "Milestones cannot be updated during an active Run")
  failed_run ← assert_retryable_blocked false context w
  ok tt

unfoldable pub previous_snapshot : Option String → World → Result (Option MilestoneSnapshot)
previous_snapshot none w = ok none
previous_snapshot (some snapshot_id) w = do
  previous ←
      or_raise (Snapshot.get snapshot_id w.snapshots)
        (lookup_error "Current Milestone Snapshot not found")
  ok (some previous)

-- `_assert_publishable`.
unfoldable pub assert_publishable :
    ProjectRuntimeState → List Milestone → World → Result (Option MilestoneSnapshot)
assert_publishable context pending_milestones w = do
  raise_if (is_none context.current_plan_commit_sha)
      (delivery_error "Milestones require an approved Plan commit")
  raise_if (is_some context.pending_action)
      (delivery_error "Milestones cannot be updated while waiting for an action")
  raise_if
      (not (is_todo context.status || is_in_progress context.status || is_blocked context.status))
      (delivery_error "Milestones cannot be updated from this status")
  unless_no_run context.current_run_id context w
  raise_if (is_some context.current_candidate_commit_sha)
      (delivery_error "Milestones cannot be updated while a Candidate is pending")
  raise_if (is_empty pending_milestones) (delivery_error "Pending Milestone list must not be empty")
  raise_if (not (all is_pending pending_milestones))
      (delivery_error "Milestone updates accept pending Milestones only")
  previous_snapshot context.current_snapshot_id w

pub record PreparedView : Type 0 where
  pub previous : Option MilestoneSnapshot
  pub view : List Milestone

-- `_prepare_milestone_view`.
unfoldable pub prepare_milestone_view :
    ProjectRuntimeState → List Milestone → World → Result PreparedView
prepare_milestone_view context pending_milestones w = do
  previous ← assert_publishable context pending_milestones w
  view ← merge_pending_milestones previous pending_milestones
  ok (record { previous = previous; view = view })

pub data ReviewDecision : Type 0 where
  pass revise : ReviewDecision
  unknown_decision : ReviewDecision

pub record MilestoneReviewResult : Type 0 where
  pub subject_digest : String
  pub decision : ReviewDecision
  pub summary : String
  pub required_changes : List String

abbrev pub is_revise : ReviewDecision → Bool
is_revise revise = true
is_revise _ = false

abbrev pub is_pass : ReviewDecision → Bool
is_pass pass = true
is_pass _ = false

-- `_validate_review`.
unfoldable pub validate_review : MilestoneReviewResult → String → Result (Unit {0})
validate_review review subject_digest = do
  raise_if (not (review.subject_digest == subject_digest))
      (delivery_error "Milestone Hard Gate reviewed a different subject")
  raise_if (not (is_pass review.decision || is_revise review.decision))
      (delivery_error "Milestone Hard Gate returned an invalid decision")
  raise_if (is_blank review.summary)
      (delivery_error "Milestone Hard Gate returned an empty summary")
  raise_if (is_pass review.decision && not (is_empty review.required_changes))
      (delivery_error "Milestone Hard Gate pass must not contain required changes")
  raise_if (is_revise review.decision && is_empty review.required_changes)
      (delivery_error "Milestone Hard Gate revise must contain required changes")

-- `_block_after_milestone_hard_gate_rejection`.
unfoldable pub block_after_rejection : ProjectRuntimeState → Result ProjectRuntimeState
block_after_rejection context = do
  raise_if (not (is_in_progress context.status) || is_some context.pending_action)
      (delivery_error "Milestone Hard Gate rejection requires an idle IN_PROGRESS project")
  raise_if (is_some context.current_run_id)
      (delivery_error "Milestone Hard Gate rejection cannot interrupt an active Run")
  post_init (record context { status = blocked })

unfoldable pub unless_retryable : Option String → ProjectRuntimeState → World → Result (Unit {0})
unless_retryable none context w = ok tt
unless_retryable (some run_id) context w = do
  failed_run ← assert_retryable_blocked false context w
  ok tt

-- `_publish_snapshot`; the retry is checked against the store of the transaction.
unfoldable pub publish_snapshot :
    World → MilestoneSnapshot → ProjectRuntimeState → Result ProjectRuntimeState
publish_snapshot w snapshot context = do
  raise_if (not (opt_eq context.current_plan_commit_sha (some snapshot.plan_commit_sha)))
      (delivery_error "Approved Plan changed while publishing Milestones")
  raise_if (not (opt_eq context.current_snapshot_id snapshot.previous_snapshot_id))
      (delivery_error "Milestone Snapshot changed while publishing Milestones")
  raise_if (is_some context.current_candidate_commit_sha)
      (delivery_error "Project began delivery while publishing Milestones")
  unless_retryable context.current_run_id context w
  post_init (record context {
    status = if is_blocked context.status then in_progress else context.status;
    current_snapshot_id = some snapshot.snapshot_id;
    current_run_id = none;
    current_milestone_key = none;
    current_stage_key = none;
  })

abbrev pub snapshot_id_of : Option MilestoneSnapshot → Option String
snapshot_id_of none = none
snapshot_id_of (some s) = some s.snapshot_id

-- The transaction of `update_milestones` for a prepared View.
unfoldable pub publish_view :
    PreparedView → (reason snapshot_uuid : String) → ℕ → World → Result (MilestoneSnapshot × World)
publish_view prepared reason snapshot_uuid now w = do
  raise_if (not (opt_eq w.state.current_snapshot_id (snapshot_id_of prepared.previous)))
      (delivery_error "Milestones changed while publishing the update")
  snapshot ← check_snapshot (record {
    snapshot_id = snapshot_uuid;
    triage_id = w.state.triage_id;
    previous_snapshot_id = snapshot_id_of prepared.previous;
    plan_commit_sha = or_empty w.state.current_plan_commit_sha;
    milestones = prepared.view;
    reason = reason;
    message_id = w.owner_message_id;
    created_at = now;
  })
  table ← Snapshot.insert snapshot w.snapshots
  let stored = record w { snapshots = table }
  (updated, w') ←
      transition RuntimeContextChangeReason.milestones_updated (publish_snapshot stored snapshot)
        stored
  ok (snapshot, w')

pub record MilestonesUpdated : Type 0 where
  pub state : ProjectRuntimeState
  pub snapshot : Option MilestoneSnapshot
  pub accepted : Bool
  pub subject_digest : String
  pub review : Option MilestoneReviewResult
