-- ===== src/Tests/Stages.antt =====
-- The Stages of the first Milestone: queued, claimed, ended, retried.
use agent_panel_x.Prelude.{
  [], String, ◌≡◌, ◌≢◌, refl, false, none, some, List, ◌∷◌, length, suc, runtime_error, ok, err,
  arith,
}
use agent_panel_x.State.{blocked}
use agent_panel_x.Runtime.{World}
use agent_panel_x.Delivery.Models.{failed, StageRun}
use agent_panel_x.Delivery.StageRuns.{list_by_run_id}
use agent_panel_x.Delivery.Driver.{Retryable, assert_retryable_blocked}
use agent_panel_x.Delivery.Driver.Contract.{StageContract}
use agent_panel_x.Delivery.Driver.Queue.{MilestoneRunQueued, queue_run}
use agent_panel_x.Delivery.Driver.Queue.Receipt.{QueuedRun, queue_run-QueuedRun}
use agent_panel_x.Delivery.Driver.Stages.{
  StageClaim, StageCompletion, claim_next_stage, succeed_stage, fail_stage,
  reconcile_interrupted_work, revision_root,
}
use agent_panel_x.Delivery.Driver.Stages.Outcome.{
  Succeeded, Failed, succeed_stage-Succeeded, fail_stage-Failed,
}
use agent_panel_x.Delivery.Driver.Stages.Retry.{Repeats, fail_stage-retryable, queue_run-Repeats}
use agent_panel_x.Delivery.Driver.Stages.Claim.{Claimed, claim_next_stage-Claimed}
use agent_panel_x.Delivery.Driver.Stages.Reconcile.{
  Reconciled, reconcile_interrupted_work-Reconciled,
}
use agent_panel_x.Delivery.Driver.Stages.Walk.{revision_root-enough}
use agent_panel_x.Delivery.Driver.Candidate.{CandidateContract}
use agent_panel_x.Delivery.Driver.Candidate.Chain.{Chained, candidate_contract-Chained}
use agent_panel_x.Tests.Computing.{computing}
use agent_panel_x.Tests.Data.{
  two_milestones, with_candidate, repository, identity, from_ok, world_of, at_stage, between_runs,
  first_milestone, stage_of, design_done, build_done, queued_row, running_row, row,
}
use agent_panel_x.Delivery.Models.{pending}

abbrev to_design : World
to_design = world_of (at_stage (some "design")) two_milestones (queued_row "a" "design" "c0" 2 ∷ [])

abbrev designing : World
designing =
    world_of (at_stage (some "design")) two_milestones (running_row "a" "design" "c0" 2 ∷ [])

abbrev building : World
building =
    world_of (at_stage (some "build")) two_milestones
      (design_done ∷ running_row "b" "build" "c1" 3 ∷ [])

abbrev between : World
between = world_of between_runs two_milestones []

abbrev failed_design : World
failed_design =
    world_of (record (at_stage (some "design")) { status = blocked }) two_milestones
      (row "a" "design" failed "c0" none (some "broken") 2 ∷ [])

abbrev no_completion : World → StageCompletion × World
no_completion w = (
  record {
    state = w.state;
    stage_run = design_done;
    next_stage_run = none;
    candidate_commit_sha = none;
  },
  w,
)

abbrev succeeded_as : String → String → World → StageCompletion × World
succeeded_as id output w = from_ok (no_completion w) (succeed_stage id output 8 "n" "m" w)

abbrev failed_as : String → World → StageCompletion × World
failed_as id w = from_ok (no_completion w) (fail_stage id " broken " 8 "m" w)

abbrev a_contract : StageContract
a_contract = record {
  snapshot = two_milestones;
  milestone = first_milestone pending;
  stage = stage_of "design";
}

abbrev claimed_in : World → StageClaim × World
claimed_in w =
    from_ok
      (
        record {
          state = w.state;
          contract = a_contract;
          stage_run = design_done;
          executor_session_stage_run_id = "";
        },
        w,
      )
      (claim_next_stage 5 50 w)

abbrev no_receipt : World → MilestoneRunQueued × World
no_receipt w = (
  record {
    state = w.state;
    snapshot = two_milestones;
    milestone = first_milestone pending;
    stage = stage_of "design";
    stage_run = design_done;
    first_run = false;
  },
  w,
)

abbrev queued_in : World → MilestoneRunQueued × World
queued_in w = from_ok (no_receipt w) (
    queue_run (repository "c0") w.state two_milestones (first_milestone pending) false false 7 "r2"
      "n" w)

abbrev reconciled_in : World → List StageRun × World
reconciled_in w = from_ok ([], w) (reconcile_interrupted_work 9 "lost" "m" w)

last_stage : (succeeded_as "b" "c2" building).1.state.current_candidate_commit_sha ≡ some "c2"
unfolding computing
last_stage = refl

retried_run : (queued_in failed_design).0.stage_run.run_id ≡ "r1"
unfolding computing
retried_run = refl

interrupted : (reconciled_in designing).1.state.status ≡ blocked
unfolding computing
interrupted = refl

succeed_stage-Succeeded_example :
    Succeeded designing "a" "c1" 8
      (succeeded_as "a" "c1" designing).0
      (succeeded_as "a" "c1" designing).1
unfolding computing
succeed_stage-Succeeded_example =
    succeed_stage-Succeeded "a" "c1" 8 "n" "m" designing (succeeded_as "a" "c1" designing).1
      (succeeded_as "a" "c1" designing).0 refl

fail_stage-Failed_example :
    Failed designing "a" " broken " 8 (failed_as "a" designing).0 (failed_as "a" designing).1
unfolding computing
fail_stage-Failed_example =
    fail_stage-Failed "a" " broken " 8 "m" designing (failed_as "a" designing).1
      (failed_as "a" designing).0 (omega arith) refl

fail_stage-retryable_example :
    assert_retryable_blocked false (failed_as "a" designing).1.state (failed_as "a" designing).1
    ≡ ok (failed_as "a" designing).0.stage_run
unfolding computing
fail_stage-retryable_example =
    fail_stage-retryable "a" " broken " 8 1 "m" designing (failed_as "a" designing).1
      (failed_as "a" designing).0 (running_row "a" "design" "c0" 2) (omega arith) refl refl refl
      refl refl

queue_run-QueuedRun_example :
    QueuedRun false between.state between (queued_in between).0 (queued_in between).1
unfolding computing
queue_run-QueuedRun_example =
    queue_run-QueuedRun (repository "c0") between.state two_milestones (first_milestone pending)
      false false 7 "r2" "n" between (queued_in between).1 (queued_in between).0 refl

queue_run-Repeats_example :
    (r : StageRun) × Retryable failed_design.state failed_design r
    × Repeats r (queued_in failed_design).0
unfolding computing
queue_run-Repeats_example =
    queue_run-Repeats (repository "c0") failed_design.state two_milestones (first_milestone pending)
      false 7 "r2" "n" failed_design (queued_in failed_design).1 (queued_in failed_design).0 refl
      refl

claim_next_stage-Claimed_example :
    Claimed to_design 5 50 (claimed_in to_design).0 (claimed_in to_design).1
unfolding computing
claim_next_stage-Claimed_example =
    claim_next_stage-Claimed 5 50 to_design (claimed_in to_design).1 (claimed_in to_design).0 refl

reconcile_interrupted_work-Reconciled_example :
    Reconciled designing 9 "lost" (reconciled_in designing).0 (reconciled_in designing).1
unfolding computing
reconcile_interrupted_work-Reconciled_example =
    reconcile_interrupted_work-Reconciled 9 "lost" "m" designing (reconciled_in designing).1
      (reconciled_in designing).0 refl

abbrev found_contract : CandidateContract
found_contract = record {
  snapshot = two_milestones;
  milestone = first_milestone pending;
  candidate = "c2";
  final_run = build_done;
}

candidate_contract-Chained_example :
    (baseline : String) × ((with_candidate two_milestones).state.git_main_version ≡ some baseline)
    × Chained baseline "c2"
        (list_by_run_id "r1" (with_candidate two_milestones).stage_runs)
        (first_milestone pending).stages
        build_done
unfolding computing
candidate_contract-Chained_example =
    candidate_contract-Chained (with_candidate two_milestones).state identity
      (with_candidate two_milestones) found_contract refl

revision_root-enough_example :
    revision_root
      (suc (suc (length to_design.stage_runs)))
      []
      (queued_row "a" "design" "c0" 2)
      to_design.stage_runs
    ≢ err (runtime_error "out of fuel")
unfolding computing
revision_root-enough_example =
    revision_root-enough (queued_row "a" "design" "c0" 2) to_design.stage_runs refl
