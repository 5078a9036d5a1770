-- ===== src/Tests/Requests.antt =====
-- Requests for the next Run, and updates of the Milestones.
use agent_panel_x.Prelude.{
  [], String, ◌≡◌, refl, false, none, some, List, ◌∷◌, delivery_error, Result, ok, err,
}
use agent_panel_x.State.{blocked, ProjectRuntimeState}
use agent_panel_x.Runtime.{World}
use agent_panel_x.Delivery.Models.{pending, failed}
use agent_panel_x.Delivery.Service.{ReviewDecision, pass, revise, MilestonesUpdated}
use agent_panel_x.Delivery.Service.Runs.{
  ApprovalRequested, NextMilestone, first_run_requested, request_next_milestone, reject_blocked_run,
  reject_first_run,
}
use agent_panel_x.Delivery.Service.Runs.Requests.{
  Requested, request_next_milestone-Requested, request-reject_blocked_run,
}
use agent_panel_x.Delivery.Service.Publish.{MilestoneHardGate, update_milestones}
use agent_panel_x.Delivery.Service.Publish.Gate.{Updated}
use agent_panel_x.Delivery.Service.Publish.Update.{ReadsOnly, update_milestones-Updated}
use agent_panel_x.Tests.Computing.{computing}
use agent_panel_x.Tests.Data.{
  two_milestones, repository, from_ok, world_of, at_stage, between_runs, unstarted, first_milestone,
  second_milestone, row,
}

abbrev new_project : World
new_project = world_of unstarted two_milestones []

abbrev idle_delivery : World
idle_delivery = world_of between_runs two_milestones []

abbrev stuck : World
stuck =
    world_of (record (at_stage (some "design")) { status = blocked }) two_milestones
      (row "a" "design" failed "c0" none (some "broken") 2 ∷ [])

abbrev approval_in : World → ApprovalRequested
approval_in w = record {
  state = w.state;
  snapshot = two_milestones;
  milestone = first_milestone pending;
}

abbrev requested_in : World → NextMilestone × World
requested_in w =
    from_ok (first_run_requested (approval_in w), w)
      (request_next_milestone (repository "c0") 7 "r2" "n" w)

abbrev rejected_retry : ProjectRuntimeState × World
rejected_retry = from_ok (stuck.state, stuck) (reject_blocked_run "not now" (requested_in stuck).1)

abbrev rejected_first : ProjectRuntimeState × World
rejected_first =
    from_ok (new_project.state, new_project)
      (reject_first_run "not now" (requested_in new_project).1)

request_next_milestone-Requested_example :
    Requested idle_delivery (requested_in idle_delivery).0 (requested_in idle_delivery).1
unfolding computing
request_next_milestone-Requested_example =
    request_next_milestone-Requested (repository "c0") 7 "r2" "n" idle_delivery
      (requested_in idle_delivery).1 (requested_in idle_delivery).0 refl

request-reject_blocked_run_example :
    (rejected_retry.1.state ≡ stuck.state) × (rejected_retry.1.stage_runs ≡ stuck.stage_runs)
unfolding computing
request-reject_blocked_run_example =
    request-reject_blocked_run (repository "c0") 7 "r2" "n" "not now" stuck (requested_in stuck).1
      rejected_retry.1 (approval_in (requested_in stuck).1) rejected_retry.0 refl refl

abbrev answering : ReviewDecision → List String → MilestoneHardGate
answering decision changes view subject w = (
  ok (record {
    subject_digest = subject;
    decision = decision;
    summary = "seen";
    required_changes = changes;
  }),
  w,
)

abbrev failing : MilestoneHardGate
failing view subject w = (err (delivery_error "no reviewer"), w)

answering_reads :
    (decision : ReviewDecision) (changes : List String) → ReadsOnly (answering decision changes)
answering_reads decision changes = record {
  same = λ view subject w. record { state = refl; snapshots = refl; stage_runs = refl };
}

failing_reads : ReadsOnly failing
failing_reads = record {
  same = λ view subject w. record { state = refl; snapshots = refl; stage_runs = refl };
}

abbrev nothing_updated : World → MilestonesUpdated
nothing_updated w = record {
  state = w.state;
  snapshot = none;
  accepted = false;
  subject_digest = "";
  review = none;
}

abbrev update_with : MilestoneHardGate → World → Result MilestonesUpdated × World
update_with gate w =
    update_milestones (repository "c0") (repository "c0") gate (λ _. "d") " more "
      (second_milestone ∷ []) "s2" 9 w

abbrev refused_update : Result MilestonesUpdated × World
refused_update = update_with (answering revise ("split it" ∷ [])) idle_delivery

abbrev failed_update : Result MilestonesUpdated × World
failed_update = update_with failing idle_delivery

refused_status : refused_update.1.state.status ≡ blocked
unfolding computing
refused_status = refl

published_snapshot :
    (update_with (answering pass []) idle_delivery).1.state.current_snapshot_id ≡ some "s2"
unfolding computing
published_snapshot = refl

update_milestones-Updated_example :
    Updated idle_delivery
      (second_milestone ∷ [])
      "more"
      (from_ok (nothing_updated idle_delivery) refused_update.0)
      refused_update.1
unfolding computing
update_milestones-Updated_example =
    update_milestones-Updated (repository "c0") (repository "c0")
      (answering revise ("split it" ∷ [])) (λ _. "d") " more " (second_milestone ∷ []) "s2" 9
      idle_delivery refused_update.1 (from_ok (nothing_updated idle_delivery) refused_update.0)
      (answering_reads revise ("split it" ∷ [])) refl

abbrev passed_update : Result MilestonesUpdated × World
passed_update = update_with (answering pass []) idle_delivery
