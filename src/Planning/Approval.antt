-- ===== src/Planning/Approval.antt =====
-- The approval and the rejection of a Plan, with the checkpoint that an approval commits
-- (src/agentplanex/services/planning/_service.py).
use agent_panel_x.Prelude.{
  [], ◌>>=◌, ◌>>◌, String, Bool, true, false, not, ◌&&◌, ◌||◌, Option, none, some, ◌∷◌, ◌==◌,
  is_some, any, all, is_blank, strip, planning_error, Result, ok, raise_if, or_raise, if◌then◌else◌,
}
use agent_panel_x.State.{ProjectRuntimeState, post_init}
use agent_panel_x.Event.{
  RuntimeContextChangeReason, ExecutionEvent, ExecutionEventType, PayloadValue,
}
use agent_panel_x.Runtime.{
  Action, ProjectOwnerTask, plan_decision_task, transition, publish, submit_owner_input,
}
use agent_panel_x.Delivery.Models.{is_empty}
use agent_panel_x.Planning.{PlanRepository, assert_pending_action, assert_same_pending_plan}

abbrev pub is_plan_document : String → Bool
is_plan_document name =
    name == "architecture.md" || name == "requirements.md" || name == "roadmap.md"

unfoldable pub commit_specs : PlanRepository → Bool → String → Result String
commit_specs repository false head = ok head
commit_specs repository true head = repository.commit_paths

-- `_is_reusable_checkpoint`.
unfoldable pub is_reusable_checkpoint : PlanRepository → String → String → Result Bool
is_reusable_checkpoint repository baseline head = do
  parent ← repository.commit_parent head
  if not (parent == baseline) then ok false else (do
    changed ← repository.changed_paths_between baseline head
    ok (not (is_empty changed) && all is_plan_document changed))

-- The head that is not at the baseline of a rolling delivery: it has to be a checkpoint of this Plan.
unfoldable pub reuse_checkpoint :
    PlanRepository → Bool → (baseline head digest : String) → Result String
reuse_checkpoint repository changed_specs baseline head expected_digest = do
  raise_if changed_specs (planning_error "Project Git HEAD changed outside Plan approval")
  reusable ← is_reusable_checkpoint repository baseline head
  raise_if (not reusable) (planning_error "Project Git HEAD changed outside Plan approval")
  committed ← repository.commit_digest head
  raise_if (not (committed == expected_digest))
      (planning_error "Existing Plan checkpoint does not match the reviewed Plan")
  ok head

unfoldable pub checkpoint_from :
    PlanRepository → Option String → Option String → Bool → (head digest : String) → Result String
checkpoint_from repository none git_branch changed_specs head expected_digest =
    commit_specs repository changed_specs head
checkpoint_from repository (some baseline) git_branch changed_specs head expected_digest = do
  branch ← or_raise git_branch (planning_error "Rolling delivery has no target Git branch")
  current ← repository.current_branch
  raise_if (not (current == branch))
      (planning_error "Project target branch changed during Plan approval")
  if head == baseline
      then commit_specs repository changed_specs head
      else reuse_checkpoint repository changed_specs baseline head expected_digest

-- `_checkpoint_plan`.
unfoldable pub checkpoint_plan : PlanRepository → ProjectRuntimeState → String → Result String
checkpoint_plan repository state expected_digest = do
  changed ← repository.changed_paths
  head ← repository.head_sha
  checkpoint_from repository
      (if is_some state.rolling_started_at then state.git_main_version else none) state.git_branch
      (any is_plan_document changed) head expected_digest

pub record PlanDecision : Type 0 where
  pub state : ProjectRuntimeState
  pub commit_sha : Option String

-- The mutations `approve` and `reject`.
unfoldable pub approve_mutation :
    (expected_digest commit_sha : String) → ProjectRuntimeState → Result ProjectRuntimeState
approve_mutation expected_digest commit_sha current = do
  assert_same_pending_plan current expected_digest
  post_init (record current {
    pending_action = none;
    pending_plan_subject_digest = none;
    current_plan_commit_sha = some commit_sha;
    git_main_version =
        if is_some current.rolling_started_at then some commit_sha else current.git_main_version;
  })

unfoldable pub reject_mutation : String → ProjectRuntimeState → Result ProjectRuntimeState
reject_mutation expected_digest current = do
  assert_same_pending_plan current expected_digest
  post_init (record current { pending_action = none; pending_plan_subject_digest = none })

unfoldable pub plan_event :
    ExecutionEventType → ProjectRuntimeState → Option String → ExecutionEvent
plan_event event_type updated none = record {
  triage_id = updated.triage_id;
  event_type = event_type;
  payload = [];
}
plan_event event_type updated (some commit_sha) = record {
  triage_id = updated.triage_id;
  event_type = event_type;
  payload = ("plan_commit_sha", PayloadValue.str commit_sha) ∷ [];
}

-- `_apply_decision`.
unfoldable pub apply_decision :
    ProjectOwnerTask
    → RuntimeContextChangeReason
    → (ProjectRuntimeState → Result ProjectRuntimeState)
    → String
    → Action ProjectRuntimeState
apply_decision task reason mutate message_id w = do
  (updated, w') ← transition reason mutate w
  w'' ← submit_owner_input task message_id w'
  ok (updated, w'')

-- `approve_plan`; `after` is the repository after the checkpoint.
unfoldable pub approve_plan :
    (before after : PlanRepository) → (message_id : String) → Action PlanDecision
approve_plan before after message_id w = do
  assert_pending_action w.state
  expected_digest ←
      or_raise w.state.pending_plan_subject_digest
        (planning_error "Plan approval has no reviewed subject identity")
  found ← before.worktree_digest
  raise_if (not (found == expected_digest))
      (planning_error "Plan specification documents changed after approval was requested")
  commit_sha ← checkpoint_plan before w.state expected_digest
  committed ← after.commit_digest commit_sha
  raise_if (not (committed == expected_digest))
      (planning_error "Plan checkpoint does not match the reviewed Plan")
  again ← after.worktree_digest
  raise_if (not (again == expected_digest))
      (planning_error "Plan specification documents changed while approval was committed")
  (updated, w') ←
      apply_decision (plan_decision_task true expected_digest (some commit_sha) none)
        RuntimeContextChangeReason.plan_approved (approve_mutation expected_digest commit_sha)
        message_id w
  ok (
    record { state = updated; commit_sha = some commit_sha },
    publish (plan_event ExecutionEventType.plan_approved updated (some commit_sha)) w',
  )

-- `text.strip() or None`.
unfoldable pub stripped : String → Option String
stripped text = if is_blank text then none else some (strip text)

-- `reject_plan`.
unfoldable pub reject_plan : (feedback message_id : String) → Action PlanDecision
reject_plan feedback message_id w = do
  assert_pending_action w.state
  expected_digest ←
      or_raise w.state.pending_plan_subject_digest
        (planning_error "Plan approval has no reviewed subject identity")
  (updated, w') ←
      apply_decision
        (plan_decision_task false expected_digest w.state.current_plan_commit_sha
          (stripped feedback))
        RuntimeContextChangeReason.plan_rejected (reject_mutation expected_digest) message_id w
  ok (
    record { state = updated; commit_sha = none },
    publish (plan_event ExecutionEventType.plan_rejected updated none) w',
  )
