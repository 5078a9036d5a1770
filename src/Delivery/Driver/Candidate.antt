-- ===== src/Delivery/Driver/Candidate.antt =====
-- The Candidate of a Milestone: the complete chain of succeeded Stages behind it, and the queueing of
-- its revision (`candidate_contract`, `_effective_candidate_stage_runs` and
-- `queue_candidate_revision` of _driver.py).
pub mod Contract
pub mod Attempts
pub mod Chain
pub mod Base
use agent_panel_x.Prelude.{
  [], ◌>>=◌, ◌>>◌, ℕ, zero, suc, String, Bool, true, false, not, ◌&&◌, ◌||◌, Option, none, some,
  List, ◌∷◌, map, ◌==◌, if◌then◌else◌, is_some, opt_eq, length, last?, filter, any, all,
  delivery_error, runtime_error, Result, ok, err, raise_if, or_raise,
}
use agent_panel_x.State.{ProjectRuntimeState, is_in_progress, is_blocked}
use agent_panel_x.Delivery.Models.{
  queued, CandidateIdentity, Stage, Milestone, MilestoneSnapshot, StageRun, stage_keys,
  check_stage_run, is_active_status, is_succeeded, is_revision,
}
use agent_panel_x.Runtime.{World, Action}
use agent_panel_x.Delivery.StageRuns
use agent_panel_x.Delivery.StageRuns.{list_by_run_id, row_before}
use agent_panel_x.Delivery.Driver.{snapshot_for_context, first_pending_milestone}

-- `max(runs, key=lambda item: (item.created_at, item.stage_run_id))` after a first run: the earlier
-- of two equal keys stays.
unfoldable pub latest_from : StageRun → List StageRun → StageRun
latest_from best [] = best
latest_from best (r ∷ rs) = latest_from (if row_before best r then r else best) rs

abbrev pub attempts : String → List StageRun → List StageRun
attempts key rows = filter (λ r. is_succeeded r.status) (filter (λ r. r.stage_key == key) rows)

unfoldable pub latest_of : List StageRun → Result StageRun
latest_of [] = err (delivery_error "Candidate has no successful Stage")
latest_of (r ∷ rs) = ok (latest_from r rs)

-- `_effective_candidate_stage_runs`: the latest successful attempt for each ordered Stage.
unfoldable pub effective_stage_runs : List StageRun → List Stage → Result (List StageRun)
effective_stage_runs rows [] = ok []
effective_stage_runs rows (stage ∷ stages) = do
  r ← latest_of (attempts stage.key rows)
  rest ← effective_stage_runs rows stages
  ok (r ∷ rest)

-- The loop that follows `revision_of_stage_run_id` from the first effective run to the run at its base;
-- `none` where a link leads to no row. Links to earlier rows end within the number of the rows.
unfoldable pub revision_base : ℕ → StageRun → List StageRun → Result (Option StageRun)
revision_base zero current rows = err (runtime_error "out of fuel")
revision_base (suc fuel) current rows = elim current.revision_of_stage_run_id [
  | none ↦ ok (some current)
  | some source ↦ elim (StageRuns.get source rows) [
    | none ↦ ok none
    | some parent ↦ revision_base fuel parent rows
  ]
]

unfoldable pub base_of : List StageRun → List StageRun → Result (Option StageRun)
base_of [] rows = ok none
base_of (r ∷ rs) rows = revision_base (suc (suc (length rows))) r rows

unfoldable pub starts_at : Option StageRun → String → Bool
starts_at none baseline = false
starts_at (some r) baseline = r.input_commit_sha == baseline

-- The commit that a run has to start from: the output of the run before it or, for a revision, the
-- output of its succeeded source.
unfoldable pub expected_input : StageRun → Option String → List StageRun → Result (Option String)
expected_input previous none rows = ok previous.output_commit_sha
expected_input previous (some source_id) rows = do
  source ←
      or_raise (StageRuns.get source_id rows)
        (delivery_error "Candidate revision source is not succeeded")
  raise_if (not (is_succeeded source.status))
      (delivery_error "Candidate revision source is not succeeded")
  ok source.output_commit_sha

-- `for previous, current in pairwise(stage_runs)`.
unfoldable pub chain : List StageRun → List StageRun → Result (Unit {0})
chain rows [] = ok tt
chain rows (r ∷ []) = ok tt
chain rows (previous ∷ current ∷ rest) = do
  expected ← expected_input previous current.revision_of_stage_run_id rows
  raise_if (not (opt_eq expected (some current.input_commit_sha)))
      (delivery_error "Candidate Run commit chain is discontinuous")
  chain rows (current ∷ rest)

abbrev same_keys : List String → List String → Bool
same_keys [] [] = true
same_keys (a ∷ keys) (b ∷ others) = a == b && same_keys keys others
same_keys _ _ = false

abbrev of_identity : String → CandidateIdentity → StageRun → Bool
of_identity triage_id expected r =
    r.triage_id == triage_id
    && r.snapshot_id == expected.snapshot_id
    && r.run_id == expected.run_id
    && r.milestone_key == expected.milestone_key

abbrev running_revision : StageRun → Bool
running_revision r = is_active_status r.status && is_revision r

unfoldable pub last_key : List Stage → Option String
last_key stages = elim (last? stages) [ none ↦ none | some stage ↦ some stage.key ]

pub record CandidateContract : Type 0 where
  pub snapshot : MilestoneSnapshot
  pub milestone : Milestone
  pub candidate : String
  pub final_run : StageRun

-- The part of `load` over the rows of the Run.
unfoldable pub candidate_chain :
    (baseline candidate : String) → List StageRun → List Stage → Result StageRun
candidate_chain baseline candidate rows stages = do
  runs ← effective_stage_runs rows stages
  raise_if (not (same_keys (map (λ r. r.stage_key) runs) (stage_keys stages)))
      (delivery_error "Candidate Run does not contain every ordered Stage")
  raise_if (not (all (λ r. is_succeeded r.status) runs))
      (delivery_error "Candidate Run contains a non-succeeded Stage")
  base ← base_of runs rows
  raise_if (not (starts_at base baseline))
      (delivery_error "Candidate Run does not start at the Git baseline")
  chain rows runs
  final_run ←
      or_raise (last? runs) (delivery_error "Candidate does not match the final Stage output")
  raise_if (not (opt_eq final_run.output_commit_sha (some candidate)))
      (delivery_error "Candidate does not match the final Stage output")
  ok final_run

-- Whether the state is at the Candidate that the Owner names.
unfoldable pub at_candidate : ProjectRuntimeState → CandidateIdentity → Bool
at_candidate context expected =
    opt_eq context.current_snapshot_id (some expected.snapshot_id)
    && opt_eq context.current_run_id (some expected.run_id)
    && opt_eq context.current_milestone_key (some expected.milestone_key)
    && opt_eq context.current_candidate_commit_sha (some expected.candidate_commit_sha)

-- `candidate_contract`.
unfoldable pub candidate_contract :
    ProjectRuntimeState → CandidateIdentity → World → Result CandidateContract
candidate_contract context expected w = do
  raise_if
      (not (is_in_progress context.status || is_blocked context.status)
        || is_some context.pending_action
        || is_some context.blocked_reason)
      (delivery_error "Candidate decision requires an active delivery project")
  raise_if (not (at_candidate context expected))
      (delivery_error "Candidate decision identity is stale")
  baseline ←
      or_raise context.git_main_version (delivery_error "Candidate has no fixed Git baseline")
  snapshot ← snapshot_for_context context w
  milestone ← first_pending_milestone snapshot
  raise_if (not (opt_eq context.current_milestone_key (some milestone.key)))
      (delivery_error "Candidate is not for the first pending Milestone")
  raise_if (not (opt_eq context.current_stage_key (last_key milestone.stages)))
      (delivery_error "Candidate cursor is not at the final Stage")
  let rows = list_by_run_id expected.run_id w.stage_runs
  raise_if (not (all (of_identity context.triage_id expected) rows))
      (delivery_error "Candidate Run provenance is inconsistent")
  raise_if (any running_revision rows) (delivery_error "Candidate revision is still running")
  final_run ← candidate_chain baseline expected.candidate_commit_sha rows milestone.stages
  ok (record {
    snapshot = snapshot;
    milestone = milestone;
    candidate = expected.candidate_commit_sha;
    final_run = final_run;
  })

abbrev pub revision_run : CandidateIdentity → StageRun → String → String → ℕ → StageRun
revision_run expected source feedback stage_run_id now = record {
  stage_run_id = stage_run_id;
  triage_id = source.triage_id;
  run_id = expected.run_id;
  snapshot_id = expected.snapshot_id;
  milestone_key = expected.milestone_key;
  stage_key = source.stage_key;
  status = queued;
  input_commit_sha = expected.candidate_commit_sha;
  output_commit_sha = none;
  failure = none;
  created_at = now;
  started_at = none;
  lease_expires_at = none;
  finished_at = none;
  revision_of_stage_run_id = some source.stage_run_id;
  revision_feedback = some feedback;
}

-- `queue_candidate_revision`.
unfoldable pub queue_candidate_revision :
    CandidateIdentity → StageRun → (feedback stage_run_uuid : String) → ℕ → Action StageRun
queue_candidate_revision expected source feedback stage_run_uuid now w = do
  revision ← check_stage_run (revision_run expected source feedback stage_run_uuid now)
  raise_if (not (at_candidate w.state expected))
      (delivery_error "Candidate changed while queuing its revision")
  raise_if (is_some (StageRuns.get_active w.state.triage_id w.stage_runs))
      (delivery_error "Candidate already has an active revision")
  rows ← StageRuns.insert revision w.stage_runs
  ok (revision, record w { stage_runs = rows })
