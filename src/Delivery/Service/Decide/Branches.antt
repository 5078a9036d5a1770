-- ===== src/Delivery/Service/Decide/Branches.antt =====
-- The three decisions on a Candidate (`decide_milestone_candidate` of
-- src/agentplanex/services/delivery/_service.py).
use agent_panel_x.Prelude.{
  [], ◌>>=◌, ◌>>◌, ℕ, String, Bool, true, false, Option, none, some, ◌∷◌, ◌==◌, if◌then◌else◌,
  is_none, normalize, delivery_error, ok, raise_if,
}
use agent_panel_x.State.{ProjectRuntimeState}
use agent_panel_x.Delivery.Models.{CandidateIdentity, Milestone, StageRun}
use agent_panel_x.Event.{
  RuntimeContextChangeReason, ExecutionEvent, ExecutionEventType, PayloadValue,
}
use agent_panel_x.Runtime.{World, Action, transition, publish}
use agent_panel_x.Delivery.Snapshot
use agent_panel_x.Delivery.Snapshot.{
  first_pending, with_completed_milestone, candidate_successor_snapshot,
}
use agent_panel_x.Delivery.Git.{Git}
use agent_panel_x.Delivery.Driver.Candidate.{
  CandidateContract, candidate_contract, queue_candidate_revision,
}
use agent_panel_x.Delivery.Service.{assert_specs}
use agent_panel_x.Delivery.Service.Target.{
  Integrate, assert_candidate_ref, assert_candidate_target, integrate_candidate,
}
use agent_panel_x.Delivery.Service.History.{has_unaccepted_rejection, has_unaccepted_revision}
use agent_panel_x.Delivery.Service.Decide.{
  Decision, CandidateDecision, accept_candidate, reject_candidate, recheck, decided_event,
  completed_event, accept, reject, revise,
}

unfoldable pub publish_if : Bool → ExecutionEvent → World → World
publish_if true event w = publish event w
publish_if false event w = w

-- `next_milestone_key` of each decision.
unfoldable pub next_key : Decision → Option Milestone → String → Option String
next_key revise next key = some key
next_key accept none key = none
next_key accept (some m) key = some m.key
next_key reject none key = some key
next_key reject (some m) key = some m.key

-- The branch of `accept`.
unfoldable pub accept_branch :
    Git
    → Integrate
    → CandidateContract
    → CandidateIdentity
    → (reason snapshot_uuid : String) → ℕ
    → Action CandidateDecision
accept_branch git integrate contract expected reason snapshot_uuid now w = do
  assert_specs git (some contract.candidate) w.state
  integrated ← integrate_candidate git integrate w.state expected
  latest ← recheck contract expected w
  successor ←
      with_completed_milestone latest.snapshot latest.milestone.key snapshot_uuid reason
        w.owner_message_id now
  table ← Snapshot.insert successor w.snapshots
  let finished = is_none (first_pending successor)
  (updated, w') ←
      transition
        (if finished
          then RuntimeContextChangeReason.triage_development_completed
          else RuntimeContextChangeReason.candidate_accepted)
        (accept_candidate contract.candidate successor finished integrated)
        (record w { snapshots = table })
  ok (
    record {
      state = updated;
      identity = expected;
      decision = accept;
      result_snapshot_id = successor.snapshot_id;
      next_milestone_key = next_key accept (first_pending successor) contract.milestone.key;
      completed = finished;
      revision_stage_run_id = none;
    },
    publish_if finished (completed_event updated contract.candidate) (
        publish
          (decided_event ExecutionEventType.candidate_accepted updated expected
            successor.snapshot_id reason)
          w'),
  )

-- The transaction that `reject` and a repeated `revise` share: the same View under a new Snapshot.
unfoldable pub release_candidate :
    RuntimeContextChangeReason
    → ExecutionEventType
    → (refusal : String) → Decision
    → Bool
    → CandidateContract
    → CandidateIdentity
    → (reason snapshot_uuid : String) → ℕ
    → Action CandidateDecision
release_candidate cause event_type refusal decision is_stuck contract expected reason snapshot_uuid
      now w =
    do
      latest ← recheck contract expected w
      successor ←
          candidate_successor_snapshot latest.snapshot snapshot_uuid reason w.owner_message_id now
      table ← Snapshot.insert successor w.snapshots
      (updated, w') ←
          transition cause (reject_candidate refusal contract.candidate successor is_stuck)
            (record w { snapshots = table })
      ok (
        record {
          state = updated;
          identity = expected;
          decision = decision;
          result_snapshot_id = successor.snapshot_id;
          next_milestone_key = next_key decision (first_pending successor) contract.milestone.key;
          completed = false;
          revision_stage_run_id = none;
        },
        publish (decided_event event_type updated expected successor.snapshot_id reason) w',
      )

-- The branch of `reject`.
unfoldable pub reject_branch :
    Git
    → CandidateContract
    → CandidateIdentity
    → (reason snapshot_uuid : String) → ℕ
    → Action CandidateDecision
reject_branch git contract expected reason snapshot_uuid now w = do
  head ← assert_candidate_target git w.state expected (some false)
  release_candidate RuntimeContextChangeReason.candidate_rejected
      ExecutionEventType.candidate_rejected "Candidate changed while being rejected" reject
      (has_unaccepted_rejection w.state.triage_id w.timeline) contract expected reason snapshot_uuid
      now w

unfoldable pub revision_event :
    ProjectRuntimeState → CandidateIdentity → StageRun → StageRun → String → ExecutionEvent
revision_event updated expected revision source reason = record {
  triage_id = updated.triage_id;
  event_type = ExecutionEventType.candidate_revision_requested;
  payload =
      ("run_id", PayloadValue.str expected.run_id)
      ∷ ("milestone_key", PayloadValue.str expected.milestone_key)
      ∷ ("candidate_commit_sha", PayloadValue.str expected.candidate_commit_sha)
      ∷ ("revision_stage_run_id", PayloadValue.str revision.stage_run_id)
      ∷ ("source_stage_run_id", PayloadValue.str source.stage_run_id)
      ∷ ("reason", PayloadValue.str reason)
      ∷ [];
}

unfoldable pub queue_revision :
    CandidateContract
    → CandidateIdentity
    → (reason stage_run_uuid : String) → ℕ
    → Action CandidateDecision
queue_revision contract expected reason stage_run_uuid now w = do
  (revision, w') ← queue_candidate_revision expected contract.final_run reason stage_run_uuid now w
  ok (
    record {
      state = w'.state;
      identity = expected;
      decision = revise;
      result_snapshot_id = contract.snapshot.snapshot_id;
      next_milestone_key = some contract.milestone.key;
      completed = false;
      revision_stage_run_id = some revision.stage_run_id;
    },
    publish (revision_event w'.state expected revision contract.final_run reason) w',
  )

-- The branch of `revise`.
unfoldable pub revise_branch :
    Git
    → CandidateContract
    → CandidateIdentity
    → (reason snapshot_uuid stage_run_uuid : String) → ℕ
    → Action CandidateDecision
revise_branch git contract expected reason snapshot_uuid stage_run_uuid now w = do
  head ← assert_candidate_target git w.state expected (some false)
  if has_unaccepted_revision w.state.triage_id w.timeline
      then release_candidate RuntimeContextChangeReason.candidate_revision_blocked
          ExecutionEventType.candidate_revision_blocked
          "Candidate changed while blocking repeated revision" revise true contract expected reason
          snapshot_uuid now w
      else queue_revision contract expected reason stage_run_uuid now w

unfoldable pub decide_as :
    Git
    → Integrate
    → CandidateIdentity
    → Decision
    → CandidateContract
    → (reason snapshot_uuid stage_run_uuid : String) → ℕ
    → Action CandidateDecision
decide_as git integrate expected accept contract reason snapshot_uuid stage_run_uuid now w =
    accept_branch git integrate contract expected reason snapshot_uuid now w
decide_as git integrate expected reject contract reason snapshot_uuid stage_run_uuid now w =
    reject_branch git contract expected reason snapshot_uuid now w
decide_as git integrate expected revise contract reason snapshot_uuid stage_run_uuid now w =
    revise_branch git contract expected reason snapshot_uuid stage_run_uuid now w

-- `decide_milestone_candidate`.
unfoldable pub decide_milestone_candidate :
    Git
    → Integrate
    → CandidateIdentity
    → Decision
    → (reason snapshot_uuid stage_run_uuid : String) → ℕ
    → Action CandidateDecision
decide_milestone_candidate git integrate expected decision reason snapshot_uuid stage_run_uuid now
      w =
    do
      raise_if (normalize reason == "")
          (delivery_error "Candidate decision reason must not be empty")
      contract ← candidate_contract w.state expected w
      assert_candidate_ref git expected
      decide_as git integrate expected decision contract (normalize reason) snapshot_uuid
          stage_run_uuid now w
