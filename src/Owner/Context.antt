-- ===== src/Owner/Context.antt =====
-- The Runtime Context with its mailbox: the store of Runtime.antt, the table of activations, and what
-- the conversation is told
-- (src/agentplanex/services/project_runtime_context/context.py). The Owner Agent itself, which runs
-- between two transactions and may use every operation of the store, is an argument.
pub mod Automatic
pub mod Drive
pub mod Endings
pub mod Fenced
pub mod View
use agent_panel_x.Prelude.{
  [], ◌>>=◌, ◌>>◌, ℕ, String, Bool, true, false, not, Option, some, List, ◌∷◌, ◌++◌, is_some,
  is_blank, value_error, runtime_error, if◌then◌else◌, Result, ok, raise_if, or_raise,
}
use agent_panel_x.State.{blocked, ProjectRuntimeState, is_blocked, is_done, post_init}
use agent_panel_x.Event.{
  RuntimeContextChangeReason, ExecutionEvent, ExecutionEventType, PayloadValue,
}
use agent_panel_x.Runtime.{
  is_idle, ProjectOwnerTask, candidate_ready_task, candidate_revision_failed_task,
  plan_decision_task, user_input_task, World, transition, publish,
}
use agent_panel_x.Owner.{
  ProjectOwnerTaskType, user_input, plan_decision, execution_result, OwnerActivationMode, model,
  tool, OwnerActivation, is_failed, is_interrupted,
}
use agent_panel_x.Takeover.{Takeovers, require_mutation_fence}
use agent_panel_x.Owner.Lifecycle.{
  AgentExitStatus, AgentExit, exit_value, submit_input, work_state, finish,
}

-- `ConversationMessageAppended` and `ConversationActivationUpdated`
-- (src/agentplanex/domains/conversation_event.py).
pub data ConversationEvent : Type 0 where
  message_appended : (message_id : String) → Option OwnerActivation → ConversationEvent
  activation_updated : OwnerActivation → ConversationEvent

pub record OwnerStore : Type 0 where
  pub world : World
  pub activations : List OwnerActivation
  pub summary_id : Option String
  pub conversation : List ConversationEvent
  pub takeovers : Takeovers
  pub mutation_fence : Option String

-- What `transaction()` runs first: the guard that composition.py fills it with, on the fence of the
-- caller.
unfoldable pub mutation_fence_guard : OwnerStore → Result (Unit {0})
mutation_fence_guard s = require_mutation_fence s.mutation_fence s.takeovers

-- The store as Delivery and Planning see it: the scheduling state is read off the table.
abbrev pub view : OwnerStore → World
view s = record s.world { owner_work = work_state s.world.state.triage_id s.activations }

abbrev pub OwnerAction : Type 0 → Type 0
OwnerAction A = OwnerStore → Result (A × OwnerStore)

-- `type` of a task, and its payload names.
abbrev pub task_type : ProjectOwnerTask → ProjectOwnerTaskType
task_type (candidate_ready_task _ _ _ _ _ _ _) = execution_result
task_type (candidate_revision_failed_task _ _ _ _ _) = execution_result
task_type (plan_decision_task _ _ _ _) = plan_decision
task_type (user_input_task _) = user_input

unfoldable pub type_value : ProjectOwnerTaskType → String
type_value user_input = "USER_INPUT"
type_value plan_decision = "PLAN_DECISION"
type_value execution_result = "EXECUTION_RESULT"

unfoldable pub mode_value : OwnerActivationMode → String
mode_value model = "MODEL"
mode_value tool = "TOOL"

unfoldable pub stage_activation : OwnerActivation → OwnerStore → OwnerStore
stage_activation a s = record s { conversation = s.conversation ++ activation_updated a ∷ [] }

unfoldable pub stage_event : ExecutionEvent → OwnerStore → OwnerStore
unfolding publish
stage_event event s = record s { world = publish event s.world }

-- The events of an activation with its driver: the loop is entered and left, and an interruption.
abbrev pub entered_with : OwnerActivation → OwnerActivationMode → ExecutionEvent
entered_with a driver = record {
  triage_id = a.triage_id;
  event_type = ExecutionEventType.react_loop_entered;
  payload =
      ("task_type", PayloadValue.str (type_value a.task_type))
      ∷ ("driver_mode", PayloadValue.str (mode_value driver))
      ∷ [];
}

abbrev pub exited_with : OwnerActivation → AgentExit → Bool → OwnerActivationMode → ExecutionEvent
exited_with a result interrupted driver = record {
  triage_id = a.triage_id;
  event_type = ExecutionEventType.react_loop_exited;
  payload =
      ("agent_exit_status", PayloadValue.str (exit_value result.status))
      ∷ ("driver_mode", PayloadValue.str (mode_value driver))
      ∷ (if interrupted then ("interrupted", PayloadValue.flag true) ∷ [] else []);
}

abbrev pub interruption : OwnerActivation → OwnerActivationMode → List (String × PayloadValue)
interruption a driver =
    ("activation_id", PayloadValue.str a.activation_id)
    ∷ ("task_type", PayloadValue.str (type_value a.task_type))
    ∷ ("driver_mode", PayloadValue.str (mode_value driver))
    ∷ ("interrupted", PayloadValue.flag true)
    ∷ ("started", PayloadValue.flag (is_some a.started_at))
    ∷ []

abbrev pub user_interrupted_with : OwnerActivation → OwnerActivationMode → ExecutionEvent
user_interrupted_with a driver = record {
  triage_id = a.triage_id;
  event_type = ExecutionEventType.user_interrupted;
  payload = interruption a driver;
}

-- `entered_event`, `exited_event`, `interrupted_event` and `user_interrupted_event`.
unfoldable pub entered_event : OwnerActivation → Result ExecutionEvent
entered_event a = do
  driver ← or_raise a.driver_mode (runtime_error "Claimed Owner activation has no driver mode")
  ok (entered_with a driver)

unfoldable pub exited_event : OwnerActivation → AgentExit → Bool → Result ExecutionEvent
exited_event a result interrupted = do
  driver ← or_raise a.driver_mode (runtime_error "Finalized Owner activation has no driver mode")
  ok (exited_with a result interrupted driver)

unfoldable pub interrupted_event : OwnerActivation → Result ExecutionEvent
interrupted_event a = do
  driver ← or_raise a.driver_mode (value_error "Interrupted Activation is missing its driver mode")
  ok (record {
    triage_id = a.triage_id;
    event_type = ExecutionEventType.owner_activation_failed;
    payload = interruption a driver ++ ("failure", PayloadValue.opt_str a.failure) ∷ [];
  })

unfoldable pub user_interrupted_event : OwnerActivation → Result ExecutionEvent
user_interrupted_event a = do
  raise_if (not (is_interrupted a.status))
      (value_error "User interrupted event requires an interrupted Activation")
  driver ← or_raise a.driver_mode (value_error "Interrupted Activation is missing its driver mode")
  ok (user_interrupted_with a driver)

-- `_block_after_owner_failure`.
unfoldable pub block_after_owner_failure : ProjectRuntimeState → Result ProjectRuntimeState
block_after_owner_failure state =
    if is_blocked state.status
    then ok state
    else if is_done state.status
    then ok state
    else post_init (record state { status = blocked })

-- `transaction.submit_owner_input`. `content_of` renders a task; `message_id` is the row that the message
-- history gives it, `activation_id` the fresh identity, `now` the clock.
unfoldable pub submit_owner_input :
    (content_of : ProjectOwnerTask → String)
    → ProjectOwnerTask
    → (message_id activation_id : String) → (now : ℕ) → OwnerAction OwnerActivation
submit_owner_input content_of task message_id activation_id now s = do
  raise_if (not (is_idle (work_state s.world.state.triage_id s.activations)))
      (value_error "Project Owner already has an unfinished activation")
  raise_if (is_blank (content_of task)) (value_error "Project Owner task content must not be empty")
  submitted ←
      submit_input activation_id now s.world.state.triage_id (task_type task) message_id
        s.summary_id s.activations
  ok (
    submitted.0,
    record s {
      world = record s.world {
        owner_inputs = s.world.owner_inputs ++ task ∷ [];
        owner_message_id = some message_id;
      };
      activations = submitted.1;
      conversation = s.conversation ++ message_appended message_id (some submitted.0) ∷ [];
    },
  )

-- `_finish_owner_in_transaction`.
unfoldable pub block_if : Bool → OwnerStore → Result OwnerStore
block_if false s = ok s
block_if true s = do
  moved ←
      transition RuntimeContextChangeReason.owner_activation_failed block_after_owner_failure
        s.world
  ok (record s { world = moved.1 })

unfoldable pub announced : OwnerActivation → AgentExit → AgentExit
announced a result =
    if is_interrupted a.status
    then record {
      status = AgentExitStatus.user_interrupted;
      content = "Owner was interrupted by the user.";
    }
    else result

unfoldable pub note_interruption : Bool → OwnerActivation → OwnerStore → Result OwnerStore
unfolding stage_event
note_interruption false a s = ok s
note_interruption true a s = do event ← user_interrupted_event a; ok (stage_event event s)

unfoldable pub finish_owner_in_transaction :
    OwnerActivation → AgentExit → (now : ℕ) → OwnerAction OwnerActivation
unfolding stage_activation stage_event
finish_owner_in_transaction activation result now s = do
  ended ← finish activation result now s.activations
  moved ← block_if (is_failed ended.0.status) (record s { activations = ended.1 })
  exited ← exited_event ended.0 (announced ended.0 result) false
  noted ←
      note_interruption (is_interrupted ended.0.status) ended.0
        (stage_event exited (stage_activation ended.0 moved))
  ok (ended.0, noted)
