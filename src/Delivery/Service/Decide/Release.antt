-- ===== src/Delivery/Service/Decide/Release.antt =====
-- What rejecting a Candidate and asking for its revision do.
use agent_panel_x.Delivery.Models.Checks.{check_stage_run-identity}
use agent_panel_x.Prelude.{
  ◌∙◌, ℕ, String, ◌≡◌, refl, Bool, true, false, Option, none, some, List, arith, if◌then◌else◌,
  Ensures, Ensures-bind, Ensures-guard, Ensures-then, Ensures-ok, normalize, raising, ok,
}
use agent_panel_x.State.{in_progress, blocked, ProjectRuntimeState, post_init}
use agent_panel_x.Delivery.Models.{
  queued, CandidateIdentity, MilestoneSnapshot, StageRun, check_snapshot,
}
use agent_panel_x.Event.{RuntimeContextChangeReason, ExecutionEventType}
use agent_panel_x.Runtime.{World, publish}
use agent_panel_x.Runtime.{publish}
use agent_panel_x.Runtime.Transition.{transition-moved}
use agent_panel_x.Delivery.StageRuns
use agent_panel_x.Delivery.Snapshot
use agent_panel_x.Delivery.Snapshot.{candidate_successor_snapshot}
use agent_panel_x.Delivery.Git.{Git}
use agent_panel_x.Delivery.Driver.{snapshot_for_context}
use agent_panel_x.Delivery.Driver.Candidate.{
  CandidateContract, candidate_contract, queue_candidate_revision, revision_run,
}
use agent_panel_x.Delivery.Driver.Candidate.Contract.{Contracted}
use agent_panel_x.Delivery.Service.Target.{Integrate}
use agent_panel_x.Delivery.Service.History.{has_unaccepted_rejection, has_unaccepted_revision}
use agent_panel_x.Delivery.Service.Decide.{
  CandidateDecision, Decision, reject, revise, reject_candidate,
}
use agent_panel_x.Delivery.Service.Decide.Branches.{
  release_candidate, reject_branch, revise_branch, queue_revision, decide_as,
  decide_milestone_candidate,
}
use agent_panel_x.Delivery.Service.Decide.Accept.{recheck-Contracted}
use agent_panel_x.Runtime.{list_by_triage_id}
use agent_panel_x.Delivery.Service.History.Decisions.{
  untouched, phase_of, is_revised, has_unaccepted_revision-revised,
}

-- A Candidate that is given up: the same View under a new Snapshot, and no cursor. `is_stuck` says
-- whether the project is BLOCKED.
pub record Released (w : World) (is_stuck : Bool) (d : CandidateDecision) (w' : World)
    : Type 0 where
  pub snapshot : MilestoneSnapshot
  pub successor : MilestoneSnapshot
  pub current : snapshot_for_context w.state w ≡ ok snapshot
  pub same_view : successor.milestones ≡ snapshot.milestones
  pub follows : successor.previous_snapshot_id ≡ some snapshot.snapshot_id
  pub table : Snapshot.insert successor w.snapshots ≡ ok w'.snapshots
  pub state : w'.state ≡ record w.state {
    status = if is_stuck then blocked else in_progress;
    current_snapshot_id = some successor.snapshot_id;
    current_run_id = none;
    current_milestone_key = none;
    current_stage_key = none;
    current_candidate_commit_sha = none;
  }
  pub rows : w'.stage_runs ≡ w.stage_runs
  pub unfinished : d.completed ≡ false
  pub no_revision : d.revision_stage_run_id ≡ none

reject_candidate-at :
    (refusal candidate : String) (successor : MilestoneSnapshot) (is_stuck : Bool)
    (s t : ProjectRuntimeState)
    → reject_candidate refusal candidate successor is_stuck s ≡ ok t
    → t ≡ record s {
      status = if is_stuck then blocked else in_progress;
      current_snapshot_id = some successor.snapshot_id;
      current_run_id = none;
      current_milestone_key = none;
      current_stage_key = none;
      current_candidate_commit_sha = none;
    }
unfolding raising reject_candidate post_init
reject_candidate-at refusal candidate successor is_stuck s t h = ground arith

successor-view :
    (s t : MilestoneSnapshot) (snapshot_id reason : String) (message_id : Option String)
    (created_at : ℕ)
    → candidate_successor_snapshot s snapshot_id reason message_id created_at ≡ ok t
    → (t.milestones ≡ s.milestones) × (t.previous_snapshot_id ≡ some s.snapshot_id)
unfolding raising candidate_successor_snapshot check_snapshot
successor-view s t snapshot_id reason message_id created_at h = (ground arith, ground arith)

release_candidate-Released :
    (cause : RuntimeContextChangeReason) (event_type : ExecutionEventType) (refusal : String)
    (decision : Decision) (is_stuck : Bool) (contract : CandidateContract)
    (expected : CandidateIdentity) (reason snapshot_uuid : String) (now : ℕ) (w : World)
    → Ensures
        (release_candidate cause event_type refusal decision is_stuck contract expected reason
          snapshot_uuid now w)
        (λ result. Released w is_stuck result.0 result.1)
unfolding release_candidate publish
release_candidate-Released cause event_type refusal decision is_stuck contract expected reason
      snapshot_uuid now w =
    Ensures-bind _ _ λ latest again. Ensures-bind _ _ λ successor made.
      Ensures-bind _ _ λ table inserted. Ensures-bind _ _ λ step moves.
        let (m, _, e) = transition-moved _ _ (record w { snapshots = table }) step.0 step.1 moves in
        let c : Contracted w.state expected w latest =
          (recheck-Contracted contract expected w).at latest again in
        let at = reject_candidate-at _ _ successor is_stuck w.state step.0 m in
        let (view, follows) = successor-view latest.snapshot successor _ _ _ _ made in
        Ensures-ok _ _ (record {
          snapshot = latest.snapshot;
          successor = successor;
          current = c.snapshot;
          same_view = view;
          follows = follows;
          table = ground (arith, inserted, e);
          state = ground (arith, e, at);
          rows = ground (arith, e);
          unfinished = refl;
          no_revision = refl;
        })

-- When the Owner rejects a Candidate, the same View becomes current under a new Snapshot, the cursor
-- and the Candidate are cleared, the target commit stays, and the project is BLOCKED if the Timeline
-- has an earlier rejection since the last acceptance, and IN_PROGRESS otherwise.
pub decide_reject-Released :
    (git : Git) (integrate : Integrate) (expected : CandidateIdentity)
    (reason snapshot_uuid stage_run_uuid : String) (now : ℕ) (w w' : World) (d : CandidateDecision)
    → decide_milestone_candidate git integrate expected reject reason snapshot_uuid stage_run_uuid
        now w
      ≡ ok (d, w')
    → Released w (has_unaccepted_rejection w.state.triage_id w.timeline) d w'
unfolding decide_milestone_candidate decide_as reject_branch
decide_reject-Released git integrate expected reason snapshot_uuid stage_run_uuid now w w' d h =
    (Ensures-guard _ _ _ λ _. Ensures-bind _ _ λ contract _. Ensures-then _ _ λ _.
        Ensures-bind _ _ λ head _.
          release_candidate-Released RuntimeContextChangeReason.candidate_rejected _ _ reject _
            contract expected (normalize reason) snapshot_uuid now w).at
      (d, w') h

-- A queued revision: the state and the Snapshots stay, and one queued StageRun of the Candidate's Run
-- starts from the Candidate and carries the feedback.
pub record Revised (w : World) (expected : CandidateIdentity) (feedback : String)
    (d : CandidateDecision) (w' : World) : Type 0 where
  pub source : StageRun
  pub revision : StageRun
  pub loaded :
      (contract : CandidateContract) × (candidate_contract w.state expected w ≡ ok contract)
      × (contract.final_run ≡ source)
  pub state : w'.state ≡ w.state
  pub snapshots : w'.snapshots ≡ w.snapshots
  pub rows : StageRuns.insert revision w.stage_runs ≡ ok w'.stage_runs
  pub named : d.revision_stage_run_id ≡ some revision.stage_run_id
  pub status : revision.status ≡ queued
  pub run : revision.run_id ≡ expected.run_id
  pub stage : revision.stage_key ≡ source.stage_key
  pub input : revision.input_commit_sha ≡ expected.candidate_commit_sha
  pub revises : revision.revision_of_stage_run_id ≡ some source.stage_run_id
  pub feedback_kept : revision.revision_feedback ≡ some feedback
  pub free : StageRuns.get_active w.state.triage_id w.stage_runs ≡ none

queue_revision-Revised :
    (contract : CandidateContract) (expected : CandidateIdentity) (reason stage_run_uuid : String)
    (now : ℕ) (w : World)
    → candidate_contract w.state expected w ≡ ok contract
    → Ensures
        (queue_revision contract expected reason stage_run_uuid now w)
        (λ result. Revised w expected reason result.0 result.1)
unfolding queue_revision publish queue_candidate_revision
queue_revision-Revised contract expected reason stage_run_uuid now w loaded =
    Ensures-bind _ _ λ queued_run queueing.
      let e : Ensures
          (queue_candidate_revision expected contract.final_run reason stage_run_uuid now w)
          (λ step.
            (step.0 ≡ revision_run expected contract.final_run reason stage_run_uuid now)
            × (StageRuns.get_active w.state.triage_id w.stage_runs ≡ none)
            × ((rows : List StageRun) × (StageRuns.insert step.0 w.stage_runs ≡ ok rows)
                × (step.1 ≡ record w { stage_runs = rows }))) =
        Ensures-bind _ _ λ r valid. Ensures-guard _ _ _ λ _. Ensures-guard _ _ _ λ free.
          Ensures-bind _ _ λ rows inserted.
            Ensures-ok _ _
              (check_stage_run-identity _ r valid, ground arith, (rows, inserted, refl)) in
      let (same, free, (rows, inserted, after)) = e.at queued_run queueing in
      Ensures-ok _ _ (record {
        source = contract.final_run;
        revision = queued_run.0;
        loaded = (contract, loaded, refl);
        state = ground (arith, after);
        snapshots = ground (arith, after);
        rows = ground (arith, after, inserted);
        named = refl;
        status = ground (arith, same);
        run = ground (arith, same);
        stage = ground (arith, same);
        input = ground (arith, same);
        revises = ground (arith, same);
        feedback_kept = ground (arith, same);
        free = free;
      })

repeated_revision :
    (git : Git) (contract : CandidateContract) (expected : CandidateIdentity)
    (reason snapshot_uuid stage_run_uuid : String) (now : ℕ) (w : World)
    → has_unaccepted_revision w.state.triage_id w.timeline ≡ true
    → Ensures
        (revise_branch git contract expected reason snapshot_uuid stage_run_uuid now w)
        (λ result. Released w true result.0 result.1)
unfolding revise_branch
repeated_revision git contract expected reason snapshot_uuid stage_run_uuid now w again =
    Ensures-bind _ _ λ head _. rw again (
      release_candidate-Released RuntimeContextChangeReason.candidate_revision_blocked _ _ revise
        true contract expected reason snapshot_uuid now w)

first_revision :
    (git : Git) (contract : CandidateContract) (expected : CandidateIdentity)
    (reason snapshot_uuid stage_run_uuid : String) (now : ℕ) (w : World)
    → has_unaccepted_revision w.state.triage_id w.timeline ≡ false
    → candidate_contract w.state expected w ≡ ok contract
    → Ensures
        (revise_branch git contract expected reason snapshot_uuid stage_run_uuid now w)
        (λ result. Revised w expected reason result.0 result.1)
unfolding revise_branch
first_revision git contract expected reason snapshot_uuid stage_run_uuid now w first loaded =
    Ensures-bind _ _ λ head _.
      rw first (queue_revision-Revised contract expected reason stage_run_uuid now w loaded)

-- When the Owner asks for a revision of a Candidate whose Run the Timeline has seen revised before, the
-- Candidate is given up and the project is BLOCKED.
pub decide_revise-Released :
    (git : Git) (integrate : Integrate) (expected : CandidateIdentity)
    (reason snapshot_uuid stage_run_uuid : String) (now : ℕ) (w w' : World) (d : CandidateDecision)
    → has_unaccepted_revision w.state.triage_id w.timeline ≡ true
    → decide_milestone_candidate git integrate expected revise reason snapshot_uuid stage_run_uuid
        now w
      ≡ ok (d, w')
    → Released w true d w'
unfolding decide_milestone_candidate decide_as
decide_revise-Released git integrate expected reason snapshot_uuid stage_run_uuid now w w' d again
      h =
    (Ensures-guard _ _ _ λ _. Ensures-bind _ _ λ contract _. Ensures-then _ _ λ _.
        repeated_revision git contract expected (normalize reason) snapshot_uuid stage_run_uuid now
          w again).at
      (d, w') h

-- When the Owner asks for a revision, and the Timeline does not end with a revised Candidate (none was
-- requested since the last decision, or no Candidate was ready after the latest request, as when that
-- revision failed), no other work of the project is active, its state and Snapshots stay, and one queued
-- StageRun is stored: a revision of the final StageRun of the Candidate, of the same Run and Stage, from
-- the Candidate's commit, with the normalized reason as its feedback.
pub decide_revise-Revised :
    (git : Git) (integrate : Integrate) (expected : CandidateIdentity)
    (reason snapshot_uuid stage_run_uuid : String) (now : ℕ) (w w' : World) (d : CandidateDecision)
    → is_revised (phase_of untouched (list_by_triage_id w.state.triage_id w.timeline)) ≡ false
    → decide_milestone_candidate git integrate expected revise reason snapshot_uuid stage_run_uuid
        now w
      ≡ ok (d, w')
    → Revised w expected (normalize reason) d w'
unfolding decide_milestone_candidate decide_as
decide_revise-Revised git integrate expected reason snapshot_uuid stage_run_uuid now w w' d first
      h =
    (Ensures-guard _ _ _ λ _. Ensures-bind _ _ λ contract loaded. Ensures-then _ _ λ _.
        first_revision git contract expected (normalize reason) snapshot_uuid stage_run_uuid now w
          (has_unaccepted_revision-revised w.state.triage_id w.timeline ∙ first) loaded).at
      (d, w') h
