-- ===== src/Tests/Data.antt =====
-- A project with one plan and two Milestones, its repository, and its stores at several moments.
use agent_panel_x.Prelude.{[], ℕ, String, Option, none, some, List, ◌∷◌, Result, ok, err}
use agent_panel_x.State.{todo, in_progress, ProjectRuntimeState}
use agent_panel_x.Event.{ExecutionEvent, ExecutionEventType}
use agent_panel_x.Runtime.{OwnerWorkState, World}
use agent_panel_x.Delivery.Models.{
  MilestoneState, pending, StageRunStatus, queued, running, succeeded, CandidateIdentity, Stage,
  Milestone, MilestoneSnapshot, StageRun,
}
use agent_panel_x.Delivery.Git.{Git}
use agent_panel_x.Delivery.Service.Target.{Integrate}

abbrev pub stage_of : String → Stage
stage_of key = record { key = key; objective = "work" }

abbrev pub first_milestone : MilestoneState → Milestone
first_milestone state = record {
  key = "m1";
  objective = "first";
  state = state;
  stages = stage_of "design" ∷ stage_of "build" ∷ [];
}

abbrev pub second_milestone : Milestone
second_milestone = record {
  key = "m2";
  objective = "second";
  state = pending;
  stages = stage_of "ship" ∷ [];
}

abbrev pub view_of : List Milestone → MilestoneSnapshot
view_of milestones = record {
  snapshot_id = "s1";
  triage_id = "t1";
  previous_snapshot_id = none;
  plan_commit_sha = "c0";
  milestones = milestones;
  reason = "plan";
  message_id = none;
  created_at = 1;
}

abbrev pub two_milestones : MilestoneSnapshot
two_milestones = view_of (first_milestone pending ∷ second_milestone ∷ [])

abbrev pub one_milestone : MilestoneSnapshot
one_milestone = view_of (first_milestone pending ∷ [])

abbrev pub row :
    (stage_run_id stage_key : String)
    → StageRunStatus
    → (input_commit_sha : String) → (output failure : Option String) → ℕ
    → StageRun
row stage_run_id stage_key status input_commit_sha output failure created_at = record {
  stage_run_id = stage_run_id;
  triage_id = "t1";
  run_id = "r1";
  snapshot_id = "s1";
  milestone_key = "m1";
  stage_key = stage_key;
  status = status;
  input_commit_sha = input_commit_sha;
  output_commit_sha = output;
  failure = failure;
  created_at = created_at;
  started_at = some created_at;
  lease_expires_at = none;
  finished_at = some created_at;
  revision_of_stage_run_id = none;
  revision_feedback = none;
}

abbrev pub queued_row : (stage_run_id stage_key input_commit_sha : String) → ℕ → StageRun
queued_row id stage_key input created_at =
    record (row id stage_key queued input none none created_at) {
      started_at = none;
      finished_at = none;
    }

abbrev pub running_row : (stage_run_id stage_key input_commit_sha : String) → ℕ → StageRun
running_row id stage_key input created_at =
    record (row id stage_key running input none none created_at) {
      lease_expires_at = some 100;
      finished_at = none;
    }

abbrev pub design_done : StageRun
design_done = row "a" "design" succeeded "c0" (some "c1") none 2

abbrev pub build_done : StageRun
build_done = row "b" "build" succeeded "c1" (some "c2") none 3

abbrev pub at_stage : Option String → ProjectRuntimeState
at_stage stage_key = record {
  triage_id = "t1";
  idea = some "an idea";
  status = in_progress;
  pending_action = none;
  git_branch = some "main";
  git_main_version = some "c0";
  rolling_started_at = some 1;
  current_plan_commit_sha = some "c0";
  pending_plan_subject_digest = none;
  current_snapshot_id = some "s1";
  current_run_id = some "r1";
  current_milestone_key = some "m1";
  current_stage_key = stage_key;
  current_candidate_commit_sha = none;
  blocked_reason = none;
  blocked_capability = none;
  blocked_previous_status = none;
}

abbrev pub between_runs : ProjectRuntimeState
between_runs = record (at_stage none) { current_run_id = none; current_milestone_key = none }

abbrev pub unstarted : ProjectRuntimeState
unstarted = record between_runs {
  status = todo;
  git_branch = none;
  git_main_version = none;
  rolling_started_at = none;
}

abbrev pub world_of : ProjectRuntimeState → MilestoneSnapshot → List StageRun → World
world_of state snapshot rows = record {
  state = state;
  snapshots = snapshot ∷ [];
  stage_runs = rows;
  owner_work = OwnerWorkState.idle;
  owner_inputs = [];
  owner_message_id = some "msg";
  timeline = [];
}

abbrev pub repository : String → Git
repository head = record {
  assert_clean = ok tt;
  current_branch = ok "main";
  head_sha = ok head;
  resolve_ref = λ _. ok "c2";
  paths_changed = λ _ _. ok [];
}

abbrev pub fast_forward : Integrate
fast_forward candidate branch head = record { outcome = ok tt; after = repository candidate }

abbrev pub identity : CandidateIdentity
identity = record {
  snapshot_id = "s1";
  run_id = "r1";
  milestone_key = "m1";
  candidate_commit_sha = "c2";
}

-- The Candidate "c2" of the first Milestone waits for the Owner.
abbrev pub with_candidate : MilestoneSnapshot → World
with_candidate snapshot =
    world_of (record (at_stage (some "build")) { current_candidate_commit_sha = some "c2" })
      snapshot (design_done ∷ build_done ∷ [])

abbrev pub event_of : ExecutionEventType → ExecutionEvent
event_of event_type = record { triage_id = "t1"; event_type = event_type; payload = [] }

abbrev pub from_ok {ℓ} : {A : Type ℓ} → A → Result A → A
from_ok a (ok b) = b
from_ok a (err e) = a
