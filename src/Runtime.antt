-- ===== src/Runtime.antt =====
-- The store behind one Feature Runtime, and the transaction's operations on it
-- (src/agentplanex/services/project_runtime_context/context.py and _state.py).
--
-- An operation is a function `World → Result (A × World)`. A raise inside `transaction()` rolls the
-- database back and discards the staged events, so an error carries no new world. What a transaction
-- stages is published at its commit: an event is appended to the Timeline in that order.
pub mod Changes
pub mod Transition
use Changes.{state_changes}
use agent_panel_x.Prelude.{
  [], ◌>>=◌, ◌>>◌, err, String, Bool, true, false, not, Option, some, List, ◌∷◌, ◌++◌, ◌==◌, filter,
  value_error, Result, ok, raise_if,
}
use agent_panel_x.Event.{
  RuntimeContextChangeReason, ExecutionEvent, ExecutionEventType, FieldChange, PayloadValue, value,
}
use agent_panel_x.State.{ProjectRuntimeState}
use agent_panel_x.Delivery.Models.{MilestoneSnapshot, StageRun}

-- Whether the Owner's mailbox has unfinished work (_activation.py, `OwnerWorkState`).
pub data OwnerWorkState : Type 0 where
  idle runnable running waiting_for_control : OwnerWorkState

abbrev pub is_idle : OwnerWorkState → Bool
is_idle idle = true
is_idle _ = false

-- The inputs of the Owner: those of Delivery and Planning, with what their JSON content names, and the
-- text of a user.
pub data ProjectOwnerTask : Type 0 where
  candidate_ready_task :
      (snapshot_id run_id milestone_key : String)
      → (base_commit_sha : Option String) → (candidate_commit_sha candidate_ref : String)
      → (delivery_documents : List String) → ProjectOwnerTask
  candidate_revision_failed_task :
      (run_id milestone_key stage_key candidate_commit_sha failure : String) → ProjectOwnerTask
  user_input_task : (content : String) → ProjectOwnerTask
  plan_decision_task :
      (approved : Bool)
      → (plan_subject_digest : String) → (plan_commit_sha feedback : Option String)
      → ProjectOwnerTask

pub record World : Type 0 where
  pub state : ProjectRuntimeState
  pub snapshots : List MilestoneSnapshot
  pub stage_runs : List StageRun
  pub owner_work : OwnerWorkState
  pub owner_inputs : List ProjectOwnerTask
  pub owner_message_id : Option String
  pub timeline : List ExecutionEvent

abbrev pub Action : Type 0 → Type 0
Action A = World → Result (A × World)

abbrev pub updated_event :
    RuntimeContextChangeReason → ProjectRuntimeState → List FieldChange → ExecutionEvent
updated_event reason updated fields = record {
  triage_id = updated.triage_id;
  event_type = ExecutionEventType.runtime_context_updated;
  payload =
      ("reason", PayloadValue.str (value reason)) ∷ ("changes", PayloadValue.changes fields) ∷ [];
}

-- `if not changes: return updated, None`, else the row is written and the event staged.
unfoldable pub record_changes :
    RuntimeContextChangeReason → ProjectRuntimeState → List FieldChange → World → World
record_changes reason updated [] w = w
record_changes reason updated (c ∷ cs) w = record w {
  state = updated;
  timeline = w.timeline ++ updated_event reason updated (c ∷ cs) ∷ [];
}

-- `apply_state_transition`, through `transaction.transition`.
unfoldable pub transition :
    RuntimeContextChangeReason
    → (ProjectRuntimeState → Result ProjectRuntimeState)
    → Action ProjectRuntimeState
transition reason mutate w = do
  updated ← mutate w.state
  raise_if (not (updated.triage_id == w.state.triage_id))
      (value_error "Runtime State transition cannot change Feature identity")
  ok (updated, record_changes reason updated (state_changes w.state updated) w)

-- `event_bus.publish`, as the Timeline recorder stores it.
unfoldable pub publish : ExecutionEvent → World → World
publish event w = record w { timeline = w.timeline ++ event ∷ [] }

-- `transaction.submit_owner_input`; `message_id` is the row that the message history gives the input.
unfoldable pub submit_owner_input : ProjectOwnerTask → String → World → Result World
submit_owner_input task message_id w = do
  raise_if (not (is_idle w.owner_work))
      (value_error "Project Owner already has an unfinished activation")
  ok (record w {
    owner_work = OwnerWorkState.runnable;
    owner_inputs = w.owner_inputs ++ task ∷ [];
    owner_message_id = some message_id;
  })

-- `events.list_by_triage_id`: the Timeline in the order of publication.
abbrev pub list_by_triage_id : String → List ExecutionEvent → List ExecutionEvent
list_by_triage_id triage_id = filter (λ event. event.triage_id == triage_id)

-- A raise leaves the store as it was when the last transaction ended.
abbrev pub settle : {A : Type 0} → Result (A × World) → World → Result A × World
settle (ok (a, w')) w = (ok a, w')
settle (err e) w = (err e, w)
