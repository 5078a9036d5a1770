-- ===== src/Tests/Decisions.antt =====
-- Decisions on the Candidate of the first Milestone.
use agent_panel_x.Prelude.{[], is_some, ◌≡◌, refl, true, false, none, ◌∷◌, normalize}
use agent_panel_x.State.{done}
use agent_panel_x.Event.{ExecutionEventType}
use agent_panel_x.Runtime.{World, list_by_triage_id}
use agent_panel_x.Delivery.Service.Decide.{Decision, accept, reject, revise, CandidateDecision}
use agent_panel_x.Delivery.Service.Decide.Branches.{decide_milestone_candidate}
use agent_panel_x.Delivery.Service.Decide.Accept.{Accepted, decide_accept-Accepted}
use agent_panel_x.Delivery.Service.Decide.Release.{
  Released, Revised, decide_reject-Released, decide_revise-Released, decide_revise-Revised,
}
use agent_panel_x.Delivery.Service.History.{has_unaccepted_rejection, has_unaccepted_revision}
use agent_panel_x.Delivery.Service.History.Decisions.{
  rejection_open, is_revised, phase_of, untouched, has_unaccepted_rejection-open,
  has_unaccepted_revision-revised,
}
use agent_panel_x.Tests.Computing.{computing}
use agent_panel_x.Tests.Data.{
  one_milestone, two_milestones, with_candidate, repository, fast_forward, identity, from_ok,
  event_of,
}

abbrev nothing : World → CandidateDecision × World
nothing w = (
  record {
    state = w.state;
    identity = identity;
    decision = reject;
    result_snapshot_id = "";
    next_milestone_key = none;
    completed = false;
    revision_stage_run_id = none;
  },
  w,
)

abbrev decided : Decision → World → CandidateDecision × World
decided decision w = from_ok (nothing w) (
    decide_milestone_candidate (repository "c0") fast_forward identity decision " good " "s2" "x" 9
      w)

abbrev revised_before : World
revised_before = record (with_candidate two_milestones) {
  timeline =
      event_of ExecutionEventType.candidate_ready
      ∷ event_of ExecutionEventType.candidate_revision_requested
      ∷ event_of ExecutionEventType.candidate_ready
      ∷ [];
}

-- A revision that was requested and has failed is not found, and the next request is queued.
abbrev revision_failed_before : World
revision_failed_before = record (with_candidate two_milestones) {
  timeline =
      event_of ExecutionEventType.candidate_ready
      ∷ event_of ExecutionEventType.candidate_revision_requested
      ∷ [];
}

revision_after_failure :
    is_some (decided revise revision_failed_before).0.revision_stage_run_id ≡ true
unfolding computing
revision_after_failure = refl

accepted_status : (decided accept (with_candidate one_milestone)).1.state.status ≡ done
unfolding computing
accepted_status = refl

decide_accept-Accepted_example :
    Accepted
      (with_candidate two_milestones)
      identity
      (decided accept (with_candidate two_milestones)).0
      (decided accept (with_candidate two_milestones)).1
unfolding computing
decide_accept-Accepted_example =
    decide_accept-Accepted (repository "c0") fast_forward identity " good " "s2" "x" 9
      (with_candidate two_milestones) (decided accept (with_candidate two_milestones)).1
      (decided accept (with_candidate two_milestones)).0 refl

decide_reject-Released_example :
    Released
      (with_candidate two_milestones)
      (has_unaccepted_rejection "t1" (with_candidate two_milestones).timeline)
      (decided reject (with_candidate two_milestones)).0
      (decided reject (with_candidate two_milestones)).1
unfolding computing
decide_reject-Released_example =
    decide_reject-Released (repository "c0") fast_forward identity " good " "s2" "x" 9
      (with_candidate two_milestones) (decided reject (with_candidate two_milestones)).1
      (decided reject (with_candidate two_milestones)).0 refl

decide_revise-Released_example :
    Released revised_before true (decided revise revised_before).0 (decided revise revised_before).1
unfolding computing
decide_revise-Released_example =
    decide_revise-Released (repository "c0") fast_forward identity " good " "s2" "x" 9
      revised_before (decided revise revised_before).1 (decided revise revised_before).0 refl refl

decide_revise-Revised_example :
    Revised
      (with_candidate two_milestones)
      identity
      (normalize " good ")
      (decided revise (with_candidate two_milestones)).0
      (decided revise (with_candidate two_milestones)).1
unfolding computing
decide_revise-Revised_example =
    decide_revise-Revised (repository "c0") fast_forward identity " good " "s2" "x" 9
      (with_candidate two_milestones) (decided revise (with_candidate two_milestones)).1
      (decided revise (with_candidate two_milestones)).0 refl refl

has_unaccepted_rejection-open_example :
    has_unaccepted_rejection "t1" revised_before.timeline
    ≡ rejection_open false (list_by_triage_id "t1" revised_before.timeline)
has_unaccepted_rejection-open_example = has_unaccepted_rejection-open "t1" revised_before.timeline

has_unaccepted_revision-revised_example :
    has_unaccepted_revision "t1" revised_before.timeline
    ≡ is_revised (phase_of untouched (list_by_triage_id "t1" revised_before.timeline))
has_unaccepted_revision-revised_example =
    has_unaccepted_revision-revised "t1" revised_before.timeline
