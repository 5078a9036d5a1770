-- ===== src/Delivery/Models.antt =====
-- Business models of Delivery (src/agentplanex/services/delivery/models.py): Stages, Milestones, immutable
-- Snapshots and StageRuns, each with the checks of its `__post_init__`.
pub mod Checks
use Prim.Native.Char.{Char, code}
use Prim.Native.String.{◌++◌}
use agent_panel_x.Prelude.{
  [], ◌>>=◌, ◌>>◌, ℕ, String, Bool, true, false, not, ◌&&◌, ◌||◌, Option, none, some, List, ◌∷◌,
  map, ◌==◌, leb, any, is_none, is_some, is_blank, value_error, Result, ok, raise_if,
}

pub data MilestoneState : Type 0 where
  pending completed : MilestoneState

pub data StageRunStatus : Type 0 where
  queued running succeeded failed : StageRunStatus

pub record CandidateIdentity : Type 0 where
  pub snapshot_id : String
  pub run_id : String
  pub milestone_key : String
  pub candidate_commit_sha : String

pub record Stage : Type 0 where
  pub key : String
  pub objective : String

pub record Milestone : Type 0 where
  pub key : String
  pub objective : String
  pub state : MilestoneState
  pub stages : List Stage

pub record MilestoneSnapshot : Type 0 where
  pub snapshot_id : String
  pub triage_id : String
  pub previous_snapshot_id : Option String
  pub plan_commit_sha : String
  pub milestones : List Milestone
  pub reason : String
  pub message_id : Option String
  pub created_at : ℕ

pub record StageRun : Type 0 where
  pub stage_run_id : String
  pub triage_id : String
  pub run_id : String
  pub snapshot_id : String
  pub milestone_key : String
  pub stage_key : String
  pub status : StageRunStatus
  pub input_commit_sha : String
  pub output_commit_sha : Option String
  pub failure : Option String
  pub created_at : ℕ
  pub started_at : Option ℕ
  pub lease_expires_at : Option ℕ
  pub finished_at : Option ℕ
  pub revision_of_stage_run_id : Option String
  pub revision_feedback : Option String

abbrev pub is_pending_state : MilestoneState → Bool
is_pending_state pending = true
is_pending_state completed = false

abbrev pub is_pending : Milestone → Bool
is_pending m = is_pending_state m.state

abbrev pub is_completed : Milestone → Bool
is_completed m = not (is_pending m)

-- `_require_text`; `name` is the error's subject.
unfoldable pub require_text : String → String → Result (Unit {0})
require_text name text = raise_if (is_blank text) (value_error name)

allowed : Char → Bool
allowed c =
    let n = code c in
    (leb b'a' n && leb n b'z')
    || (leb b'A' n && leb n b'Z')
    || (leb b'0' n && leb n b'9')
    || leb 45 n && leb n 46
    || leb 95 n && leb n 95

has_unsupported : String → Bool
unfolding allowed
has_unsupported String.[] = false
has_unsupported (String.◌∷◌ c s) = not (allowed c) || has_unsupported s

-- `_require_identifier`.
unfoldable pub require_identifier : String → String → Result (Unit {0})
unfolding require_text has_unsupported
require_identifier name text = do
  require_text name text
  raise_if (has_unsupported text) (value_error name)

abbrev pub occurs : String → List String → Bool
occurs k keys = any (λ other. other == k) keys

-- `len(keys) == len(set(keys))`.
abbrev pub unique : List String → Bool
unique [] = true
unique (k ∷ keys) = not (occurs k keys) && unique keys

abbrev pub milestone_keys : List Milestone → List String
milestone_keys = map (λ m. m.key)

abbrev pub stage_keys : List Stage → List String
stage_keys = map (λ stage. stage.key)

-- `_require_unique`.
unfoldable pub require_unique : String → List String → Result (Unit {0})
require_unique kind keys = raise_if (not (unique keys)) (value_error kind)

abbrev pub is_empty {ℓ} : {A : Type ℓ} → List A → Bool
is_empty [] = true
is_empty (_ ∷ _) = false

-- `CandidateIdentity.__post_init__`. Each of these checks gives its value back, or the error that
-- the constructor raises.
unfoldable pub check_identity : CandidateIdentity → Result CandidateIdentity
check_identity i = do
  require_identifier "snapshot_id" i.snapshot_id
  require_identifier "run_id" i.run_id
  require_identifier "milestone_key" i.milestone_key
  require_text "candidate_commit_sha" i.candidate_commit_sha
  ok i

-- `Stage.__post_init__`.
unfoldable pub check_stage : Stage → Result Stage
check_stage stage = do
  require_identifier "stage key" stage.key
  require_text "stage objective" stage.objective
  ok stage

-- `Milestone.__post_init__`.
unfoldable pub check_milestone : Milestone → Result Milestone
check_milestone m = do
  require_identifier "milestone key" m.key
  require_text "milestone objective" m.objective
  raise_if (is_empty m.stages) (value_error "Milestone must contain at least one Stage")
  require_unique "stage" (stage_keys m.stages)
  ok m

-- `MilestoneSnapshot.__post_init__`.
unfoldable pub check_snapshot : MilestoneSnapshot → Result MilestoneSnapshot
check_snapshot s = do
  require_text "snapshot_id" s.snapshot_id
  require_text "triage_id" s.triage_id
  require_text "plan_commit_sha" s.plan_commit_sha
  require_text "snapshot reason" s.reason
  raise_if (is_empty s.milestones)
      (value_error "Milestone Snapshot must contain at least one Milestone")
  require_unique "milestone" (milestone_keys s.milestones)
  ok s

abbrev pub or_empty : Option String → String
or_empty none = ""
or_empty (some s) = s

-- The branches of `StageRun.__post_init__` on the status.
unfoldable pub check_lifecycle : StageRunStatus → StageRun → Result (Unit {0})
unfolding require_text
check_lifecycle queued r =
    raise_if
      (is_some r.started_at
        || is_some r.lease_expires_at
        || is_some r.finished_at
        || is_some r.output_commit_sha
        || is_some r.failure)
      (value_error "Queued StageRun cannot have lifecycle results")
check_lifecycle running r = do
  raise_if (is_none r.started_at) (value_error "Running StageRun must have started_at")
  raise_if (is_none r.lease_expires_at) (value_error "Running StageRun must have lease_expires_at")
  raise_if (is_some r.finished_at || is_some r.output_commit_sha || is_some r.failure)
      (value_error "Running StageRun cannot have terminal results")
check_lifecycle succeeded r = do
  raise_if (is_none r.finished_at) (value_error "Finished StageRun must have finished_at")
  raise_if (is_some r.lease_expires_at) (value_error "Finished StageRun cannot retain a lease")
  raise_if (is_none r.started_at) (value_error "Succeeded StageRun must have started_at")
  require_text "output_commit_sha" (or_empty r.output_commit_sha)
  raise_if (is_some r.failure) (value_error "Succeeded StageRun cannot contain a failure")
check_lifecycle failed r = do
  raise_if (is_none r.finished_at) (value_error "Finished StageRun must have finished_at")
  raise_if (is_some r.lease_expires_at) (value_error "Finished StageRun cannot retain a lease")
  raise_if (is_some r.output_commit_sha)
      (value_error "Failed StageRun cannot contain an output commit")
  require_text "StageRun failure" (or_empty r.failure)

check_revision : Option String → Option String → Result (Unit {0})
unfolding require_text
check_revision none feedback =
    raise_if (is_some feedback) (value_error "A normal StageRun cannot contain revision feedback")
check_revision (some source) feedback = do
  require_text "revision_of_stage_run_id" source
  require_text "revision feedback" (or_empty feedback)

-- The part of `StageRun.__post_init__` that does not look at the status.
unfoldable pub check_provenance : StageRun → Result (Unit {0})
unfolding require_text check_revision
check_provenance r = do
  require_text "stage_run_id" r.stage_run_id
  require_text "triage_id" r.triage_id
  require_text "run_id" r.run_id
  require_text "snapshot_id" r.snapshot_id
  require_text "milestone_key" r.milestone_key
  require_text "stage_key" r.stage_key
  require_text "input_commit_sha" r.input_commit_sha
  check_revision r.revision_of_stage_run_id r.revision_feedback

-- `StageRun.__post_init__`.
unfoldable pub check_stage_run : StageRun → Result StageRun
unfolding check_provenance check_lifecycle
check_stage_run r = do check_provenance r; check_lifecycle r.status r; ok r

-- `status in {QUEUED, RUNNING}`, and the tests on one status.
abbrev pub is_active_status : StageRunStatus → Bool
is_active_status queued = true
is_active_status running = true
is_active_status _ = false

abbrev pub is_queued : StageRunStatus → Bool
is_queued queued = true
is_queued _ = false

abbrev pub is_running : StageRunStatus → Bool
is_running running = true
is_running _ = false

abbrev pub is_succeeded : StageRunStatus → Bool
is_succeeded succeeded = true
is_succeeded _ = false

abbrev pub is_failed : StageRunStatus → Bool
is_failed failed = true
is_failed _ = false

-- `revision_of_stage_run_id is not None`.
abbrev pub is_revision : StageRun → Bool
is_revision r = is_some r.revision_of_stage_run_id

-- `delivery_run_ref` and `delivery_candidate_ref`.
unfoldable pub delivery_run_ref : String → Result String
delivery_run_ref run_id = do
  require_identifier "run_id" run_id
  ok ("refs/agentplanex/runs/" ++ run_id)

unfoldable pub delivery_candidate_ref : String → Result String
delivery_candidate_ref run_id = do
  require_identifier "run_id" run_id
  ok ("refs/agentplanex/candidates/" ++ run_id)
