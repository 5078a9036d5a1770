-- ===== src/Owner/Context/Drive.antt =====
-- The operations of the Runtime Context on the Owner's work: the automatic run of an activation, its
-- manual steps, its end by hand, the recovery after a stopped process, and the interrupt request.
use Prim.Native.String
use agent_panel_x.Prelude.{
  [], ◌>>=◌, ◌>>◌, ℕ, String, Bool, true, false, not, Option, none, some, List, ◌∷◌, ◌++◌, ◌==◌,
  is_some, is_blank, strip, value_error, lookup_error, runtime_error, delivery_error,
  planning_error, git_error, integrity_error, fence_error, timeout_error, stop_iteration,
  error_message, if◌then◌else◌, Error, Result, ok, err, raise_if,
}
use agent_panel_x.Event.{RuntimeContextChangeReason}
use agent_panel_x.Runtime.{is_idle, transition}
use agent_panel_x.Owner.{OwnerActivation, is_running}
use agent_panel_x.Owner.Activations.{request_interrupt, get_latest, fail_unfinished, release_tool}
use agent_panel_x.Owner.Lifecycle.{
  AgentExitStatus, AgentExit, work_state, claim_for_model, ActivationClaim, claim_for_tool,
}
use agent_panel_x.Owner.Context.{
  message_appended, OwnerStore, OwnerAction, stage_activation, stage_event, entered_event,
  exited_event, interrupted_event, block_after_owner_failure, finish_owner_in_transaction,
  mutation_fence_guard,
}

-- A raise leaves the store as it was when the last transaction ended.
abbrev pub settle_owner :
    {A : Type 0} → Result (A × OwnerStore) → OwnerStore → Result A × OwnerStore
settle_owner (ok (a, s')) s = (ok a, s')
settle_owner (err e) s = (err e, s)

-- `f"{type(error).__name__}: {error}"`.
unfoldable pub error_type : Error → String
error_type (value_error _) = "ValueError"
error_type (lookup_error _) = "LookupError"
error_type (delivery_error _) = "DeliveryError"
error_type (planning_error _) = "PlanningError"
error_type (git_error _) = "GitRepositoryError"
error_type (integrity_error _) = "IntegrityError"
error_type (runtime_error _) = "RuntimeError"
error_type (fence_error _) = "AutoTakeoverFenceError"
error_type (timeout_error _) = "TimeoutError"
error_type stop_iteration = "StopIteration"

unfoldable pub error_text : Error → String
unfolding error_type error_message
error_text error = String.◌++◌ (error_type error) (String.◌++◌ ": " (error_message error))

-- `_unhandled_exit`, and the exit that a run of the Owner Agent comes to.
abbrev pub unhandled_exit : Error → AgentExit
unhandled_exit error = record {
  status = AgentExitStatus.unhandled_exception;
  content = error_text error;
}

abbrev pub exit_of : Result AgentExit → AgentExit
exit_of (ok result) = result
exit_of (err error) = unhandled_exit error

-- The Owner Agent's run of a claimed activation: its exit, or what it raised, and the store after it.
abbrev pub OwnerRun : Type 0
OwnerRun = OwnerActivation → OwnerStore → Result AgentExit × OwnerStore

-- The first transaction of `drive_owner`.
begin_model : Option (OwnerActivation × List OwnerActivation) → OwnerAction (Option OwnerActivation)
unfolding stage_activation stage_event
begin_model none s = ok (none, s)
begin_model (some (a, rows)) s = do
  event ← entered_event a
  ok (some a, stage_activation a (stage_event event (record s { activations = rows })))

unfoldable pub claim_owner : ℕ → OwnerAction (Option OwnerActivation)
unfolding begin_model
claim_owner started_at s = do
  mutation_fence_guard s
  row ← claim_for_model s.world.state.triage_id started_at s.activations
  begin_model row s

-- `_finish_owner`: the end of an activation in a transaction of its own.
unfoldable pub finish_owner : OwnerActivation → AgentExit → ℕ → OwnerAction OwnerActivation
finish_owner a result finished_at s = do
  mutation_fence_guard s
  finish_owner_in_transaction a result finished_at s

pub record ActivationDriveResult : Type 0 where
  pub activation : Option OwnerActivation
  pub exit : Option AgentExit

driven :
    AgentExit → Result (OwnerActivation × OwnerStore) → Result (ActivationDriveResult × OwnerStore)
driven result (ok (a, s)) = ok (record { activation = some a; exit = some result }, s)
driven result (err e) = err e

unfoldable pub drive_claimed :
    OwnerRun
    → ℕ
    → Result (Option OwnerActivation × OwnerStore)
    → OwnerStore
    → Result ActivationDriveResult × OwnerStore
unfolding driven finish_owner
drive_claimed run finished_at (err e) s = (err e, s)
drive_claimed run finished_at (ok (none, s')) s =
    (ok (record { activation = none; exit = none }), s')
drive_claimed run finished_at (ok (some a, s')) s =
    let answer = run a s' in
    settle_owner
      (driven (exit_of answer.0) (finish_owner a (exit_of answer.0) finished_at answer.1)) answer.1

-- `drive_owner`; the two times are the readings of the clock.
unfoldable pub drive_owner :
    OwnerRun → (started_at finished_at : ℕ) → OwnerStore → Result ActivationDriveResult × OwnerStore
unfolding drive_claimed
drive_owner run started_at finished_at s =
    drive_claimed run finished_at (claim_owner started_at s) s

-- The claim of a manual step.
note_entry : ActivationClaim → OwnerStore → Result OwnerStore
unfolding stage_event
note_entry c s =
    if c.started then (do event ← entered_event c.activation; ok (stage_event event s)) else ok s

unfoldable pub claim_in_transaction : (allow_running : Bool) → ℕ → OwnerAction ActivationClaim
unfolding note_entry stage_activation
claim_in_transaction allow_running started_at s = do
  claim ← claim_for_tool s.world.state.triage_id started_at allow_running s.activations
  entered ← note_entry claim.0 (record s { activations = claim.1 })
  ok (claim.0, stage_activation claim.0.activation entered)

unfoldable pub claim_step : ℕ → OwnerAction ActivationClaim
unfolding claim_in_transaction
claim_step started_at s = do mutation_fence_guard s; claim_in_transaction false started_at s

pub record ToolActivationDriveResult : Type 0 where
  pub activation : OwnerActivation
  pub started : Bool
  pub exit : Option AgentExit

-- What `execute_activation_action` does: it raises `AgentFlowExit`, or another exception, or returns a
-- result with an exit or without.
pub data ToolAnswer : Type 0 where
  flow_exit : AgentExit → ToolAnswer
  raised : Error → ToolAnswer
  answered : Option AgentExit → ToolAnswer

abbrev pub ToolRun : Type 0
ToolRun = OwnerActivation → OwnerStore → ToolAnswer × OwnerStore

stepped :
    Bool
    → Option AgentExit
    → Result (OwnerActivation × OwnerStore)
    → Result (ToolActivationDriveResult × OwnerStore)
stepped started exit (ok (a, s)) = ok (record { activation = a; started = started; exit = exit }, s)
stepped started exit (err e) = err e

-- `_fail_tool_step`, and every other end of the activation by an exit.
end_step :
    ActivationClaim → AgentExit → ℕ → OwnerStore → Result (ToolActivationDriveResult × OwnerStore)
unfolding stepped finish_owner
end_step c result finished_at s =
    stepped c.started (some result) (finish_owner c.activation result finished_at s)

release_step : OwnerActivation → OwnerAction OwnerActivation
unfolding stage_activation
release_step a s = do
  mutation_fence_guard s
  row ← release_tool a.activation_id s.activations
  ok (row.0, stage_activation row.0 (record s { activations = row.1 }))

after_tool :
    ActivationClaim → ℕ → ToolAnswer → OwnerStore → Result (ToolActivationDriveResult × OwnerStore)
unfolding end_step release_step stepped
after_tool c finished_at (flow_exit result) s = end_step c result finished_at s
after_tool c finished_at (raised e) s = end_step c (unhandled_exit e) finished_at s
after_tool c finished_at (answered (some result)) s = end_step c result finished_at s
after_tool c finished_at (answered none) s = stepped c.started none (release_step c.activation s)

-- `drive_owner_tool`.
unfoldable pub step_claimed :
    ToolRun
    → ℕ
    → Result (ActivationClaim × OwnerStore)
    → OwnerStore
    → Result ToolActivationDriveResult × OwnerStore
unfolding after_tool
step_claimed run finished_at (err e) s = (err e, s)
step_claimed run finished_at (ok (c, s')) s =
    let answer = run c.activation s' in
    settle_owner (after_tool c finished_at answer.0 answer.1) answer.1

unfoldable pub drive_owner_tool :
    ToolRun
    → (started_at finished_at : ℕ) → OwnerStore
    → Result ToolActivationDriveResult × OwnerStore
unfolding step_claimed
drive_owner_tool run started_at finished_at s =
    step_claimed run finished_at (claim_step started_at s) s

-- `reply_owner`: the second transaction, and the failed step if it raises.
reply : String → (message_id : String) → ℕ → ActivationClaim → OwnerAction OwnerActivation
reply content message_id finished_at c s = do
  mutation_fence_guard s
  raise_if (is_blank content) (value_error "Project Owner reply must not be empty")
  raise_if (not (is_running c.activation.status))
      (value_error "Project Owner can only run a claimed activation")
  raise_if (not (s.world.state.triage_id == c.activation.triage_id))
      (lookup_error "Owner activation does not belong to this Project Runtime")
  let written = record s { world = record s.world { owner_message_id = some message_id } }
  ended ←
      finish_owner_in_transaction c.activation
        (record { status = AgentExitStatus.reply_to_human; content = strip content }) finished_at
        written
  ok (
    ended.0,
    record ended.1 {
      conversation = ended.1.conversation ++ message_appended message_id (some ended.0) ∷ [];
    },
  )

reply_or_fail :
    String
    → ActivationClaim
    → ℕ
    → OwnerStore
    → Result (OwnerActivation × OwnerStore)
    → Result (ToolActivationDriveResult × OwnerStore)
unfolding end_step
reply_or_fail content c failed_at s (ok (a, s')) = ok (
  record {
    activation = a;
    started = c.started;
    exit = some (record { status = AgentExitStatus.reply_to_human; content = strip content });
  },
  s',
)
reply_or_fail content c failed_at s (err e) = end_step c (unhandled_exit e) failed_at s

reply_claimed :
    String
    → (message_id : String) → (finished_at failed_at : ℕ) → Result (ActivationClaim × OwnerStore)
    → OwnerStore
    → Result ToolActivationDriveResult × OwnerStore
unfolding reply reply_or_fail
reply_claimed content message_id finished_at failed_at (err e) s = (err e, s)
reply_claimed content message_id finished_at failed_at (ok (c, s')) s =
    settle_owner (reply_or_fail content c failed_at s' (reply content message_id finished_at c s'))
      s'

unfoldable pub reply_owner :
    String
    → (message_id : String) → (started_at finished_at failed_at : ℕ) → OwnerStore
    → Result ToolActivationDriveResult × OwnerStore
unfolding reply_claimed
reply_owner content message_id started_at finished_at failed_at s =
    reply_claimed content message_id finished_at failed_at (claim_step started_at s) s

-- `fail_owner`, in one transaction.
unfoldable pub fail_owner :
    (reason : String) → (started_at finished_at : ℕ) → OwnerAction ToolActivationDriveResult
unfolding claim_in_transaction stepped
fail_owner reason started_at finished_at s = do
  raise_if (is_blank reason) (value_error "Project Owner failure reason must not be empty")
  mutation_fence_guard s
  claim ← claim_in_transaction true started_at s
  let result : AgentExit = record {
    status = AgentExitStatus.manual_drive_failed;
    content = strip reason;
  }
  stepped claim.0.started (some result)
      (finish_owner_in_transaction claim.0.activation result finished_at claim.1)

-- `execute_tool`: a naked Tool action runs only beside an idle mailbox.
execute_after :
    {A : Type 0}
    → Result (Unit {0})
    → (OwnerStore → Result A × OwnerStore)
    → OwnerStore
    → Result A × OwnerStore
execute_after (ok _) executor s = executor s
execute_after (err e) executor s = (err e, s)

unfoldable pub execute_tool :
    {A : Type 0} → (OwnerStore → Result A × OwnerStore) → OwnerStore → Result A × OwnerStore
unfolding execute_after
execute_tool executor s =
    execute_after
      (do
        mutation_fence_guard s
        raise_if (not (is_idle (work_state s.world.state.triage_id s.activations)))
            (value_error "Project Owner has an unfinished activation"))
      executor s

-- The loop of `fail_interrupted_owner` over the failed rows.
note_exit : String → OwnerActivation → OwnerStore → Result OwnerStore
unfolding stage_event
note_exit failure a s =
    if is_some a.started_at
    then (do
      event ←
          exited_event a
            (record { status = AgentExitStatus.unhandled_exception; content = failure }) true
      ok (stage_event event s))
    else ok s

unfoldable pub note_failures : String → List OwnerActivation → OwnerStore → Result OwnerStore
unfolding note_exit stage_activation stage_event
note_failures failure [] s = ok s
note_failures failure (a ∷ rest) s = do
  exited ← note_exit failure a (stage_activation a s)
  event ← interrupted_event a
  note_failures failure rest (stage_event event exited)

block_interrupted : List OwnerActivation → OwnerAction Bool
block_interrupted [] s = ok (false, s)
block_interrupted (a ∷ rest) s = do
  moved ←
      transition RuntimeContextChangeReason.interrupted_work_failed block_after_owner_failure
        s.world
  ok (true, record s { world = moved.1 })

-- `reconcile_interrupted_owner`.
unfoldable pub reconcile_interrupted_owner :
    (finished_at : ℕ) → (failure : String) → OwnerAction Bool
unfolding block_interrupted
reconcile_interrupted_owner finished_at failure s = do
  mutation_fence_guard s
  failed ← fail_unfinished s.world.state.triage_id finished_at failure s.activations
  noted ← note_failures failure failed.0 (record s { activations = failed.1 })
  block_interrupted failed.0 noted

-- `request_owner_interrupt`: the requested activation, or else the latest one.
requested_or_latest :
    String
    → Option (OwnerActivation × List OwnerActivation)
    → OwnerStore
    → Option OwnerActivation × OwnerStore
requested_or_latest triage_id none s = (get_latest triage_id s.activations, s)
requested_or_latest triage_id (some (a, rows)) s = (some a, record s { activations = rows })

unfoldable pub request_owner_interrupt : String → OwnerAction (Option OwnerActivation)
unfolding requested_or_latest
request_owner_interrupt triage_id s = do
  raise_if (not (s.world.state.triage_id == triage_id))
      (lookup_error "Workspace Feature binding does not match its Runtime identity")
  mutation_fence_guard s
  row ← request_interrupt triage_id s.activations
  ok (requested_or_latest triage_id row s)
