-- ===== src/Delivery/Service/Publish/Gate.antt =====
-- What the last transaction of an update of the Milestones does to the store.
use agent_panel_x.Prelude.{
  ℕ, String, ◌≡◌, refl, Bool, true, false, Option, none, some, List, arith, if◌then◌else◌, is_some,
  opt_eq_iff, Ensures, Ensures-bind, Ensures-guard, Ensures-then, Ensures-ok, raising, ok,
}
use agent_panel_x.State.{in_progress, blocked, ProjectRuntimeState, is_blocked, post_init}
use agent_panel_x.Delivery.Models.{Milestone, MilestoneSnapshot, or_empty}
use agent_panel_x.Event.{ExecutionEvent}
use agent_panel_x.Runtime.{World, publish}
use agent_panel_x.Runtime.{publish}
use agent_panel_x.Runtime.Transition.{transition-moved}
use agent_panel_x.State.Validity.{post_init-identity}
use agent_panel_x.Delivery.Snapshot
use agent_panel_x.Delivery.Git.{Git}
use agent_panel_x.Delivery.Models.Checks.{check_snapshot-identity}
use agent_panel_x.Delivery.Service.{
  prepare_milestone_view, assert_publishable, PreparedView, MilestoneReviewResult,
  block_after_rejection, publish_snapshot, publish_view, MilestonesUpdated,
}
use agent_panel_x.Delivery.Service.Publish.{revises, finish_update, updated_event}

-- The two ends of an update that returns.
pub data Updated (w : World) (pending_milestones : List Milestone) (reason : String)
    (u : MilestonesUpdated) (w' : World) : Type 0 where
  published :
      (snapshot : MilestoneSnapshot) (prepared : PreparedView)
      → prepare_milestone_view w.state pending_milestones w ≡ ok prepared
      → snapshot.milestones ≡ prepared.view
      → snapshot.reason ≡ reason
      → snapshot.triage_id ≡ w.state.triage_id
      → w.state.current_plan_commit_sha ≡ some snapshot.plan_commit_sha
      → u.snapshot ≡ some snapshot
      → u.accepted ≡ true
      → revises u.review ≡ false
      → snapshot.previous_snapshot_id ≡ w.state.current_snapshot_id
      → Snapshot.insert snapshot w.snapshots ≡ ok w'.snapshots
      → w'.state ≡ record w.state {
        status = if is_blocked w.state.status then in_progress else w.state.status;
        current_snapshot_id = some snapshot.snapshot_id;
        current_run_id = none;
        current_milestone_key = none;
        current_stage_key = none;
      }
      → w'.stage_runs ≡ w.stage_runs
      → Updated w pending_milestones reason u w'
  refused :
      u.snapshot ≡ none
      → u.accepted ≡ false
      → revises u.review ≡ true
      → w.state.status ≡ in_progress
      → w.state.current_run_id ≡ none
      → w'.state ≡ record w.state { status = blocked }
      → w'.snapshots ≡ w.snapshots
      → w'.stage_runs ≡ w.stage_runs
      → Updated w pending_milestones reason u w'

block_after_rejection-at :
    (s t : ProjectRuntimeState)
    → block_after_rejection s ≡ ok t
    → (t ≡ record s { status = blocked }) × (s.status ≡ in_progress) × (s.current_run_id ≡ none)
unfolding raising block_after_rejection post_init
block_after_rejection-at s t h = (ground arith, ground arith, ground arith)

publish_snapshot-at :
    (w : World) (snapshot : MilestoneSnapshot) (s : ProjectRuntimeState)
    → Ensures (publish_snapshot w snapshot s) (λ t.
      (t ≡ record s {
        status = if is_blocked s.status then in_progress else s.status;
        current_snapshot_id = some snapshot.snapshot_id;
        current_run_id = none;
        current_milestone_key = none;
        current_stage_key = none;
      })
      × (snapshot.previous_snapshot_id ≡ s.current_snapshot_id))
unfolding publish_snapshot
publish_snapshot-at w snapshot s = Ensures-guard _ _ _ λ _. Ensures-guard _ _ _ λ follows.
    Ensures-guard _ _ _ λ _. Ensures-then _ _ λ _. record {
      at = λ t e. (
        post_init-identity _ e,
        ground (arith, opt_eq_iff s.current_snapshot_id snapshot.previous_snapshot_id),
      );
    }

-- A View is prepared only with an approved Plan.
assert_publishable-planned :
    (context : ProjectRuntimeState) (pending_milestones : List Milestone) (w : World)
    → Ensures
        (assert_publishable context pending_milestones w)
        (λ _. context.current_plan_commit_sha ≡ some (or_empty context.current_plan_commit_sha))
unfolding assert_publishable
assert_publishable-planned context pending_milestones w =
    Ensures-guard _ _ _ λ planned. record { at = λ _ _. ground (arith, planned) }

prepare_milestone_view-planned :
    (context : ProjectRuntimeState) (pending_milestones : List Milestone) (w : World)
    → Ensures
        (prepare_milestone_view context pending_milestones w)
        (λ _. context.current_plan_commit_sha ≡ some (or_empty context.current_plan_commit_sha))
unfolding prepare_milestone_view
prepare_milestone_view-planned context pending_milestones w = Ensures-bind _ _ λ previous ready.
    record {
      at = λ _ _. (assert_publishable-planned context pending_milestones w).at previous ready;
    }

publish_view-Published :
    (prepared : PreparedView) (pending_milestones : List Milestone) (reason snapshot_uuid : String)
    (now : ℕ) (w : World) (digest : String) (review : Option MilestoneReviewResult)
    (event : ExecutionEvent)
    → prepare_milestone_view w.state pending_milestones w ≡ ok prepared
    → revises review ≡ false
    → Ensures (publish_view prepared reason snapshot_uuid now w) (λ result.
      (current : ProjectRuntimeState)
      → Updated w pending_milestones reason
          (record {
            state = current;
            snapshot = some result.0;
            accepted = true;
            subject_digest = digest;
            review = review;
          })
          (publish event result.1))
unfolding publish_view publish
publish_view-Published prepared ms reason snapshot_uuid now w digest review event ready passes =
    Ensures-guard _ _ _ λ _. Ensures-bind _ _ λ snapshot valid. Ensures-bind _ _ λ table inserted.
      Ensures-bind _ _ λ step moves.
        let (m, _, e) = transition-moved _ _ (record w { snapshots = table }) step.0 step.1 moves in
        let (at, follows) =
          (publish_snapshot-at (record w { snapshots = table }) snapshot w.state).at step.0 m in
        let made = check_snapshot-identity _ snapshot valid in
        let planned = (prepare_milestone_view-planned w.state ms w).at prepared ready in
        Ensures-ok _ _ λ current.
          Updated.published snapshot prepared ready (ground (arith, made)) (ground (arith, made))
            (ground (arith, made)) (ground (arith, made, planned)) refl refl passes follows
            (ground (arith, inserted, e)) (ground (arith, e, at)) (ground (arith, e))

pub finish_as :
    (git : Git) (digest : List Milestone → String) (reason : String)
    (pending_milestones : List Milestone) (subject : String) (review : Option MilestoneReviewResult)
    (snapshot_uuid : String) (now : ℕ) (w : World) (answer : Bool)
    → revises review ≡ answer
    → Ensures
        (finish_update git digest reason pending_milestones subject review snapshot_uuid now w)
        (λ result. Updated w pending_milestones reason result.0 result.1)
unfolding finish_update
finish_as git digest reason pending_milestones subject review snapshot_uuid now w true answer =
    Ensures-bind _ _ λ prepared _. Ensures-then _ _ λ _. Ensures-guard _ _ _ λ _. rw answer (
      Ensures-bind _ _ λ step moves.
        let (m, _, e) = transition-moved _ _ w step.0 step.1 moves in
        let (at, active, idle) = block_after_rejection-at w.state step.0 m in
        Ensures-ok _ _ (
          Updated.refused refl refl answer active idle (ground (arith, e, at)) (ground (arith, e))
            (ground (arith, e))))
finish_as git digest reason pending_milestones subject review snapshot_uuid now w false answer =
    Ensures-bind _ _ λ prepared ready. Ensures-then _ _ λ _. Ensures-guard _ _ _ λ _. rw answer (
      Ensures-bind _ _ λ result made. Ensures-ok _ _ (
        (publish_view-Published prepared pending_milestones reason snapshot_uuid now w subject
            review (updated_event result.0 subject (is_some review)) ready answer).at
          result made result.1.state))
