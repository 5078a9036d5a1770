-- ===== src/Delivery/Service/Publish/Review.antt =====
-- The review behind an update of an IN_PROGRESS project (`_run_milestone_hard_gate` and
-- `update_milestones` of _service.py).
use agent_panel_x.Prelude.{
  ◌>>=◌, ◌>>◌, String, ◌≡◌, not, Option, some, List, if◌then◌else◌, Result, ok,
}
use agent_panel_x.Delivery.Models.{Milestone, MilestoneSnapshot, is_empty}
use agent_panel_x.Runtime.{World}
use agent_panel_x.Delivery.Git.{Git}
use agent_panel_x.Delivery.Service.{
  MilestoneReviewResult, pass, revise, MilestonesUpdated, PreparedView, prepare_milestone_view,
}
use agent_panel_x.Delivery.Service.Publish.{
  MilestoneHardGate, run_milestone_hard_gate, revises, gate_started,
}

-- The review that an update stands on. It is the Hard Gate's answer for the View that was prepared before,
-- and of the digest of that View; it gives reasons exactly if it asks for changes, and the update follows
-- its decision. The View prepared after the gate has the same digest, and it is what is published.
pub record Reviewed (gate : MilestoneHardGate) (digest : List Milestone → String)
    (pending_milestones : List Milestone) (w : World) (u : MilestonesUpdated) : Type 0 where
  pub review : MilestoneReviewResult
  pub before : PreparedView
  pub after : PreparedView
  pub prepared : prepare_milestone_view w.state pending_milestones w ≡ ok before
  pub of_view : u.subject_digest ≡ digest before.view
  pub answered :
      (gate before.view u.subject_digest (gate_started w.state.triage_id u.subject_digest w)).0
      ≡ ok review
  pub kept : u.review ≡ some review
  pub subject : review.subject_digest ≡ u.subject_digest
  pub decision : review.decision ≡ (if u.accepted then pass else revise)
  pub reasons : is_empty review.required_changes ≡ u.accepted
  pub prepared_again :
      (let v = (run_milestone_hard_gate gate w.state.triage_id before.view u.subject_digest w).1 in
        prepare_milestone_view v.state pending_milestones v ≡ ok after)
  pub unchanged : digest after.view ≡ u.subject_digest
  pub published :
      (snapshot : MilestoneSnapshot) → u.snapshot ≡ some snapshot → snapshot.milestones ≡ after.view

-- A review that passes its checks, and the answer that it is.
record Validated (answer : Result MilestoneReviewResult) (review : MilestoneReviewResult)
    (subject : String) : Type 0 where
  answered : answer ≡ ok review
  same : review.subject_digest ≡ subject
  decided : review.decision ≡ (if revises (some review) then revise else pass)
  reasons : is_empty review.required_changes ≡ not (revises (some review))

-- What the last transaction reports, and the View that it prepared.
record Reported (review : Option MilestoneReviewResult) (digest : List Milestone → String)
    (pending_milestones : List Milestone) (subject_digest : String) (v : World)
    (u : MilestonesUpdated) : Type 0 where
  kept : u.review ≡ review
  subject : u.subject_digest ≡ subject_digest
  accepted : u.accepted ≡ not (revises review)
  after : PreparedView
  prepared : prepare_milestone_view v.state pending_milestones v ≡ ok after
  unchanged : digest after.view ≡ subject_digest
  published :
      (snapshot : MilestoneSnapshot) → u.snapshot ≡ some snapshot → snapshot.milestones ≡ after.view
