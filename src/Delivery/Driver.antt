-- ===== src/Delivery/Driver.antt =====
-- The guards that the Stage driver shares (src/agentplanex/services/delivery/_driver.py): the Snapshot of the
-- current state, its first pending Milestone, the delivery cursor, and the retry of a failed Stage.
pub mod Contract
pub mod Candidate
pub mod Queue
pub mod Stages
use mathlib.Core.Path.{subst}
use agent_panel_x.Prelude.{
  ◌>>=◌, ◌>>◌, last?-filter-holds, Ensures, Ensures-guard, Ensures-or_raise, Ensures-ok, find-holds,
  eq_iff, raising, ℕ, String, ◌≡◌, sym, Bool, true, false, not, ◌&&◌, ◌||◌, Option, none, some,
  arith, ◌==◌, eq_iff, leb, if◌then◌else◌, is_none, is_some, opt_eq, opt_eq_iff, last?, find-holds,
  lookup_error, delivery_error, Result, ok, raise_if, or_raise,
}
use agent_panel_x.State.{
  blocked, PendingAction, ProjectRuntimeState, is_in_progress, is_blocked, is_blocked_run_approval,
}
use agent_panel_x.Delivery.Models.{
  pending, failed, Stage, Milestone, MilestoneSnapshot, StageRun, is_queued, is_failed,
}
use agent_panel_x.Runtime.{World}
use agent_panel_x.Delivery.Snapshot
use agent_panel_x.Delivery.Snapshot.{first_pending}
use agent_panel_x.Delivery.StageRuns
use agent_panel_x.Delivery.StageRuns.{list_by_run_id}

-- `_snapshot_for_context`, of the driver and of the service.
unfoldable pub snapshot_for_context : ProjectRuntimeState → World → Result MilestoneSnapshot
snapshot_for_context context w = do
  plan_commit_sha ←
      or_raise context.current_plan_commit_sha
        (delivery_error "Milestone delivery requires an approved Plan commit")
  snapshot_id ←
      or_raise context.current_snapshot_id
        (delivery_error "Milestone delivery requires a published Snapshot")
  snapshot ←
      or_raise (Snapshot.get snapshot_id w.snapshots)
        (lookup_error "Current Milestone Snapshot not found")
  raise_if (not (snapshot.triage_id == context.triage_id))
      (delivery_error "Current Milestone Snapshot belongs to another Triage")
  raise_if (not (snapshot.plan_commit_sha == plan_commit_sha))
      (delivery_error "Current Milestone Snapshot is bound to an outdated Plan")
  ok snapshot

-- `_first_pending`, of the driver and of the service.
unfoldable pub first_pending_milestone : MilestoneSnapshot → Result Milestone
first_pending_milestone snapshot =
    or_raise (first_pending snapshot) (delivery_error "Milestone Snapshot has no pending Milestone")

-- Whether the cursor of the state is at the StageRun.
unfoldable pub at_cursor : ProjectRuntimeState → StageRun → Bool
at_cursor context r =
    opt_eq context.current_run_id (some r.run_id)
    && opt_eq context.current_snapshot_id (some r.snapshot_id)
    && opt_eq context.current_milestone_key (some r.milestone_key)
    && opt_eq context.current_stage_key (some r.stage_key)

-- `_assert_current_stage`.
unfoldable pub assert_current_stage : ProjectRuntimeState → StageRun → Result (Unit {0})
assert_current_stage context r =
    raise_if (not (is_in_progress context.status && at_cursor context r))
      (delivery_error "Project delivery cursor changed during Stage execution")

-- `pending_action not in ({None, "BLOCKED_RUN_APPROVAL"} if allow_pending_approval else {None})`.
abbrev pub pending_refused : Bool → Option PendingAction → Bool
pending_refused allow_pending_approval pending_action =
    is_some pending_action && not (allow_pending_approval && is_blocked_run_approval pending_action)

abbrev pub is_terminal_failure : ProjectRuntimeState → StageRun → Bool
is_terminal_failure context r =
    is_failed r.status
    && opt_eq context.current_stage_key (some r.stage_key)
    && opt_eq context.current_milestone_key (some r.milestone_key)
    && opt_eq context.current_snapshot_id (some r.snapshot_id)

-- `assert_retryable_blocked`: BLOCKED identifies one terminal failed delivery cursor.
unfoldable pub assert_retryable_blocked : Bool → ProjectRuntimeState → World → Result StageRun
assert_retryable_blocked allow_pending_approval context w = do
  raise_if
      (not (is_blocked context.status)
        || pending_refused allow_pending_approval context.pending_action
        || is_none context.rolling_started_at
        || is_some context.current_candidate_commit_sha)
      (delivery_error "Project is not a retryable failed delivery")
  run_id ←
      or_raise context.current_run_id (delivery_error "BLOCKED delivery has no failed Run cursor")
  failed_run ←
      or_raise (last? (list_by_run_id run_id w.stage_runs))
        (delivery_error "BLOCKED delivery does not point to a terminal failed Stage")
  raise_if (not (is_terminal_failure context failed_run))
      (delivery_error "BLOCKED delivery does not point to a terminal failed Stage")
  ok failed_run

-- `active_work`, with the time `now` at which it looks.
pub data DeliveryWorkState : Type 0 where
  idle runnable running_work : DeliveryWorkState

abbrev pub lease_expired : Option ℕ → ℕ → Bool
lease_expired none now = false
lease_expired (some expires_at) now = leb expires_at now

work_of : Option StageRun → ℕ → DeliveryWorkState
work_of none now = idle
work_of (some r) now =
    if is_queued r.status
    then runnable
    else if lease_expired r.lease_expires_at now
    then runnable
    else running_work

unfoldable pub active_work : ℕ → World → DeliveryWorkState
unfolding work_of
active_work now w = work_of (StageRuns.get_active w.state.triage_id w.stage_runs) now

-- What a cursor test that passes says.
pub at_cursor-eq :
    (context : ProjectRuntimeState) (r : StageRun)
    → at_cursor context r ≡ true
    → (context.current_run_id ≡ some r.run_id)
      × (context.current_snapshot_id ≡ some r.snapshot_id)
      × (context.current_milestone_key ≡ some r.milestone_key)
      × (context.current_stage_key ≡ some r.stage_key)
unfolding raising at_cursor
at_cursor-eq context r h = ground (
  arith,
  opt_eq_iff context.current_run_id (some r.run_id),
  opt_eq_iff context.current_snapshot_id (some r.snapshot_id),
  opt_eq_iff context.current_milestone_key (some r.milestone_key),
  opt_eq_iff context.current_stage_key (some r.stage_key),
)

pub at_cursor-intro :
    (context : ProjectRuntimeState) (r : StageRun)
    → context.current_run_id ≡ some r.run_id
    → context.current_snapshot_id ≡ some r.snapshot_id
    → context.current_milestone_key ≡ some r.milestone_key
    → context.current_stage_key ≡ some r.stage_key
    → at_cursor context r ≡ true
unfolding raising at_cursor
at_cursor-intro context r p q s t = ground (
  arith,
  opt_eq_iff context.current_run_id (some r.run_id),
  opt_eq_iff context.current_snapshot_id (some r.snapshot_id),
  opt_eq_iff context.current_milestone_key (some r.milestone_key),
  opt_eq_iff context.current_stage_key (some r.stage_key),
)

pub snapshot_for_context-id :
    (context : ProjectRuntimeState) (w : World) (snapshot : MilestoneSnapshot)
    → snapshot_for_context context w ≡ ok snapshot
    → context.current_snapshot_id ≡ some snapshot.snapshot_id
unfolding snapshot_for_context
snapshot_for_context-id context w snapshot h =
    (Ensures-or_raise _ _ _ λ plan _. Ensures-or_raise _ _ _ λ snapshot_id named.
        Ensures-or_raise _ _ _ λ found row. Ensures-guard _ _ _ λ _. Ensures-guard _ _ _ λ _.
          Ensures-ok (λ s. context.current_snapshot_id ≡ some s.snapshot_id) found
            (ground (
              arith,
              named,
              find-holds (λ s. s.snapshot_id == snapshot_id) w.snapshots found row,
              eq_iff found.snapshot_id snapshot_id,
            ))).at
      snapshot h

-- What the retry guard knows of the run that it returns.
pub record Retryable (context : ProjectRuntimeState) (w : World) (r : StageRun) : Type 0 where
  pub status : context.status ≡ blocked
  pub candidate : context.current_candidate_commit_sha ≡ none
  pub run : context.current_run_id ≡ some r.run_id
  pub last : last? (list_by_run_id r.run_id w.stage_runs) ≡ some r
  pub ended : r.status ≡ failed
  pub stage : context.current_stage_key ≡ some r.stage_key

pub assert_retryable_blocked-Retryable :
    (allow : Bool) (context : ProjectRuntimeState) (w : World)
    → Ensures (assert_retryable_blocked allow context w) (Retryable context w)
unfolding assert_retryable_blocked
assert_retryable_blocked-Retryable allow context w = Ensures-guard _ _ _ λ guards.
    Ensures-or_raise _ _ _ λ run_id named. Ensures-or_raise _ _ _ λ r found.
      Ensures-guard _ _ _ λ terminal.
        let same : r.run_id ≡ run_id = ground (
          arith,
          last?-filter-holds (λ x. x.run_id == run_id) w.stage_runs r found,
          eq_iff r.run_id run_id,
        ) in
        Ensures-ok _ r (record {
          status = ground arith;
          candidate = ground arith;
          run = ground (arith, same);
          last =
              subst (λ (k : String). last? (list_by_run_id k w.stage_runs) ≡ some r) (sym same)
                found;
          ended = ground arith;
          stage = ground (arith, opt_eq_iff context.current_stage_key (some r.stage_key));
        })
