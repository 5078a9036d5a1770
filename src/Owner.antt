-- ===== src/Owner.antt =====
-- The Owner's mailbox: the activation, one durable pointer to an input that the Owner has to process
-- (src/agentplanex/services/project_runtime_context/models.py), with the checks of its class.
pub mod Activations
pub mod Checks
pub mod Context
pub mod Lifecycle
use agent_panel_x.Prelude.{
  ◌>>=◌, ◌>>◌, ℕ, String, Bool, true, false, not, ◌&&◌, ◌||◌, Option, none, some, is_none, is_some,
  is_blank, value_error, Result, ok, raise_if,
}

pub data ProjectOwnerTaskType : Type 0 where
  user_input plan_decision execution_result : ProjectOwnerTaskType

pub data OwnerActivationStatus : Type 0 where
  pending running completed failed interrupted : OwnerActivationStatus

pub data OwnerActivationMode : Type 0 where
  model tool : OwnerActivationMode

pub record OwnerActivation : Type 0 where
  pub activation_id : String
  pub triage_id : String
  pub task_type : ProjectOwnerTaskType
  pub message_id : String
  pub summary_id : Option String
  pub previous_interrupted_activation_id : Option String
  pub interrupt_requested : Bool
  pub status : OwnerActivationStatus
  pub driver_mode : Option OwnerActivationMode
  pub created_at : ℕ
  pub started_at : Option ℕ
  pub finished_at : Option ℕ
  pub failure : Option String

-- `status is ...`, `driver_mode is ...`, and `status IN ('PENDING', 'RUNNING')`.
abbrev pub is_pending : OwnerActivationStatus → Bool
is_pending pending = true
is_pending _ = false

abbrev pub is_running : OwnerActivationStatus → Bool
is_running running = true
is_running _ = false

abbrev pub is_completed : OwnerActivationStatus → Bool
is_completed completed = true
is_completed _ = false

abbrev pub is_failed : OwnerActivationStatus → Bool
is_failed failed = true
is_failed _ = false

abbrev pub is_interrupted : OwnerActivationStatus → Bool
is_interrupted interrupted = true
is_interrupted _ = false

abbrev pub is_unfinished : OwnerActivationStatus → Bool
is_unfinished pending = true
is_unfinished running = true
is_unfinished _ = false

abbrev pub is_tool : Option OwnerActivationMode → Bool
is_tool (some tool) = true
is_tool _ = false

abbrev pub is_model : Option OwnerActivationMode → Bool
is_model (some model) = true
is_model _ = false

-- `value is not None and not value.strip()`.
blank_text : Option String → Bool
blank_text none = false
blank_text (some s) = is_blank s

-- The part of `__post_init__` for a PENDING activation.
check_pending : OwnerActivation → Result (Unit {0})
check_pending a = do
  raise_if
      (is_none a.driver_mode
        && (is_some a.started_at || is_some a.finished_at || is_some a.failure))
      (value_error "New pending activation cannot have lifecycle results")
  raise_if (is_model a.driver_mode) (value_error "Only a Tool activation can wait for another step")
  raise_if (is_some a.driver_mode && is_none a.started_at)
      (value_error "Resumable Tool activation must have started_at")
  raise_if (is_some a.driver_mode && (is_some a.finished_at || is_some a.failure))
      (value_error "Resumable Tool activation cannot have a terminal result")

check_running : OwnerActivation → Result (Unit {0})
check_running a = do
  raise_if (is_none a.driver_mode) (value_error "Started activation must have a driver mode")
  raise_if (is_none a.started_at) (value_error "Running activation must have started_at")
  raise_if (is_some a.finished_at || is_some a.failure)
      (value_error "Running activation cannot have a terminal result")

check_finished : OwnerActivation → Result (Unit {0})
unfolding blank_text
check_finished a = do
  raise_if (is_none a.driver_mode) (value_error "Started activation must have a driver mode")
  raise_if (is_none a.finished_at) (value_error "Finished activation must have finished_at")
  raise_if (is_completed a.status && is_none a.started_at)
      (value_error "Completed activation must have started_at")
  raise_if (is_failed a.status && (is_none a.failure || blank_text a.failure))
      (value_error "Failed activation must contain a failure")
  raise_if (not (is_failed a.status) && is_some a.failure)
      (value_error "Only failed activations may contain a failure")

check_lifecycle : OwnerActivationStatus → OwnerActivation → Result (Unit {0})
unfolding check_pending check_running check_finished
check_lifecycle pending a = check_pending a
check_lifecycle running a = check_running a
check_lifecycle _ a = check_finished a

-- `__post_init__`: the activation as it was given, or the error that the constructor raises.
unfoldable pub check_activation : OwnerActivation → Result OwnerActivation
unfolding blank_text check_lifecycle
check_activation a = do
  raise_if (is_blank a.activation_id) (value_error "activation_id must not be empty")
  raise_if (is_blank a.triage_id) (value_error "triage_id must not be empty")
  raise_if (is_blank a.message_id) (value_error "message_id must not be empty")
  raise_if (blank_text a.summary_id) (value_error "summary_id must not be empty")
  raise_if (blank_text a.previous_interrupted_activation_id)
      (value_error "previous_interrupted_activation_id must not be empty")
  raise_if (a.interrupt_requested && not (is_running a.status))
      (value_error "Only a running activation may have an interrupt request")
  check_lifecycle a.status a
  ok a
