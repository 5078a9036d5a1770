-- ===== src/Delivery/Driver/Contract.antt =====
-- The contract of a Stage and the state changes of its end (`_stage_contract`, `_advance_stage`,
-- `_candidate_ready`, `_stage_failed` and `_block_runtime_execution` of _driver.py).
use agent_panel_x.Prelude.{
  [], ◌>>=◌, ◌>>◌, String, Bool, true, false, not, ◌&&◌, ◌||◌, Option, none, some, List, ◌∷◌, ◌==◌,
  if◌then◌else◌, is_some, opt_eq, head?, last?, find, value_error, lookup_error, delivery_error,
  Result, ok, err, raise_if, or_raise,
}
use agent_panel_x.State.{
  blocked, ProjectRuntimeState, is_in_progress, is_blocked, is_done, post_init,
}
use agent_panel_x.Delivery.Models.{Stage, Milestone, MilestoneSnapshot, StageRun, is_revision}
use agent_panel_x.Runtime.{World}
use agent_panel_x.Delivery.Driver.{
  snapshot_for_context, first_pending_milestone, at_cursor, assert_current_stage,
}

pub record StageContract : Type 0 where
  pub snapshot : MilestoneSnapshot
  pub milestone : Milestone
  pub stage : Stage

abbrev pub last_stage_key : List Stage → Option String
last_stage_key stages = elim (last? stages) [ none ↦ none | some stage ↦ some stage.key ]

unfoldable pub revision_contract :
    Bool → ProjectRuntimeState → StageRun → Milestone → Result (Unit {0})
revision_contract false context r milestone = ok tt
revision_contract true context r milestone = do
  raise_if (not (opt_eq context.current_candidate_commit_sha (some r.input_commit_sha)))
      (delivery_error "Candidate revision does not start at the current Candidate")
  raise_if (not (opt_eq (last_stage_key milestone.stages) (some r.stage_key)))
      (delivery_error "Candidate revision must target the final Stage")

-- `_stage_contract`.
unfoldable pub stage_contract : ProjectRuntimeState → StageRun → World → Result StageContract
stage_contract context r w = do
  raise_if (not (is_in_progress context.status) || is_some context.pending_action)
      (delivery_error "Stage execution requires an active IN_PROGRESS project")
  raise_if (is_some context.current_candidate_commit_sha && not (is_revision r))
      (delivery_error "Stage execution cannot continue with a pending Candidate")
  raise_if (not (at_cursor context r))
      (delivery_error "StageRun does not match the current delivery cursor")
  snapshot ← snapshot_for_context context w
  milestone ← first_pending_milestone snapshot
  raise_if (not (milestone.key == r.milestone_key))
      (delivery_error "StageRun is not for the first pending Milestone")
  revision_contract (is_revision r) context r milestone
  stage ←
      or_raise (find (λ stage. stage.key == r.stage_key) milestone.stages)
        (delivery_error "StageRun Stage is absent from its fixed Snapshot")
  ok (record { snapshot = snapshot; milestone = milestone; stage = stage })

-- `_advance_stage`.
unfoldable pub advance_stage : StageRun → Stage → ProjectRuntimeState → Result ProjectRuntimeState
advance_stage finished_run next_stage context = do
  assert_current_stage context finished_run
  raise_if (is_some context.current_candidate_commit_sha)
      (delivery_error "Candidate appeared while advancing Stage execution")
  post_init (record context { current_stage_key = some next_stage.key })

-- `_candidate_ready`.
unfoldable pub candidate_ready :
    StageRun → String → ProjectRuntimeState → Result ProjectRuntimeState
candidate_ready finished_run candidate_commit_sha context = do
  assert_current_stage context finished_run
  raise_if (is_some context.current_candidate_commit_sha && not (is_revision finished_run))
      (delivery_error "Project already has a pending Candidate")
  raise_if
      (is_revision finished_run
        && not (opt_eq context.current_candidate_commit_sha (some finished_run.input_commit_sha)))
      (delivery_error "Candidate revision started from a different Candidate")
  post_init (record context { current_candidate_commit_sha = some candidate_commit_sha })

-- `_stage_failed`.
unfoldable pub stage_failed : StageRun → ProjectRuntimeState → Result ProjectRuntimeState
stage_failed failed_run context = do
  assert_current_stage context failed_run
  if is_revision failed_run
      then (do
        raise_if
            (not (opt_eq context.current_candidate_commit_sha (some failed_run.input_commit_sha)))
            (delivery_error "Candidate revision failed against a different Candidate")
        ok context)
      else post_init (record context { status = blocked })

-- `_block_runtime_execution`.
unfoldable pub block_runtime_execution : ProjectRuntimeState → Result ProjectRuntimeState
block_runtime_execution context =
    if is_blocked context.status
    then ok context
    else if is_done context.status
    then err (value_error "Completed Project Runtime cannot contain failed work")
    else post_init (record context { status = blocked })

-- `milestone.stages[_stage_index(milestone, key) + 1]`, or `none` at the final Stage; an absent key
-- is a `LookupError`.
unfoldable pub next_stage : String → List Stage → Result (Option Stage)
next_stage key [] = err (lookup_error "Stage not found in Milestone")
next_stage key (stage ∷ rest) =
    let later = next_stage key rest in if stage.key == key then ok (head? rest) else later
