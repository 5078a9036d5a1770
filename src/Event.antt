-- ===== src/Event.antt =====
-- Observable facts of a project under development (src/agentplanex/domains/execution_event.py): the kinds
-- of event, the reasons of a state change, and the event with its payload.
use agent_panel_x.Prelude.{ℕ, String, Bool, true, false, Option, List}

pub data ExecutionEventType : Type 0 where
  react_loop_entered : ExecutionEventType
  react_loop_exited : ExecutionEventType
  user_interrupted : ExecutionEventType
  owner_activation_failed : ExecutionEventType
  context_compaction_started : ExecutionEventType
  context_compaction_completed : ExecutionEventType
  context_compaction_failed : ExecutionEventType
  runtime_context_updated : ExecutionEventType
  agent_invocation_started : ExecutionEventType
  agent_invocation_completed : ExecutionEventType
  agent_invocation_failed : ExecutionEventType
  auto_takeover_started : ExecutionEventType
  auto_takeover_completed : ExecutionEventType
  auto_takeover_failed : ExecutionEventType
  plan_approval_requested : ExecutionEventType
  plan_approved : ExecutionEventType
  plan_rejected : ExecutionEventType
  milestones_updated : ExecutionEventType
  first_run_approval_requested : ExecutionEventType
  first_run_approval_rejected : ExecutionEventType
  blocked_run_approval_requested : ExecutionEventType
  blocked_run_approved : ExecutionEventType
  blocked_run_rejected : ExecutionEventType
  milestone_run_queued : ExecutionEventType
  stage_run_started : ExecutionEventType
  stage_run_succeeded : ExecutionEventType
  stage_run_failed : ExecutionEventType
  candidate_ready : ExecutionEventType
  candidate_revision_requested : ExecutionEventType
  candidate_revision_blocked : ExecutionEventType
  candidate_accepted : ExecutionEventType
  candidate_rejected : ExecutionEventType
  triage_development_completed : ExecutionEventType

pub data RuntimeContextChangeReason : Type 0 where
  feature_begun : RuntimeContextChangeReason
  conversation_started : RuntimeContextChangeReason
  owner_activation_failed : RuntimeContextChangeReason
  interrupted_work_failed : RuntimeContextChangeReason
  user_intervention_required : RuntimeContextChangeReason
  plan_approval_requested : RuntimeContextChangeReason
  plan_approved : RuntimeContextChangeReason
  plan_rejected : RuntimeContextChangeReason
  milestones_updated : RuntimeContextChangeReason
  milestone_hard_gate_rejected : RuntimeContextChangeReason
  first_run_approval_requested : RuntimeContextChangeReason
  first_run_approval_rejected : RuntimeContextChangeReason
  blocked_run_approval_requested : RuntimeContextChangeReason
  blocked_run_rejected : RuntimeContextChangeReason
  first_run_started : RuntimeContextChangeReason
  milestone_run_queued : RuntimeContextChangeReason
  stage_run_started : RuntimeContextChangeReason
  stage_run_succeeded : RuntimeContextChangeReason
  stage_run_failed : RuntimeContextChangeReason
  candidate_ready : RuntimeContextChangeReason
  candidate_revision_blocked : RuntimeContextChangeReason
  candidate_accepted : RuntimeContextChangeReason
  candidate_rejected : RuntimeContextChangeReason
  triage_development_completed : RuntimeContextChangeReason

-- `reason.value`.
unfoldable pub value : RuntimeContextChangeReason → String
value RuntimeContextChangeReason.feature_begun = "FEATURE_BEGUN"
value RuntimeContextChangeReason.conversation_started = "CONVERSATION_STARTED"
value RuntimeContextChangeReason.owner_activation_failed = "OWNER_ACTIVATION_FAILED"
value RuntimeContextChangeReason.interrupted_work_failed = "INTERRUPTED_WORK_FAILED"
value RuntimeContextChangeReason.user_intervention_required = "USER_INTERVENTION_REQUIRED"
value RuntimeContextChangeReason.plan_approval_requested = "PLAN_APPROVAL_REQUESTED"
value RuntimeContextChangeReason.plan_approved = "PLAN_APPROVED"
value RuntimeContextChangeReason.plan_rejected = "PLAN_REJECTED"
value RuntimeContextChangeReason.milestones_updated = "MILESTONES_UPDATED"
value RuntimeContextChangeReason.milestone_hard_gate_rejected = "MILESTONE_HARD_GATE_REJECTED"
value RuntimeContextChangeReason.first_run_approval_requested = "FIRST_RUN_APPROVAL_REQUESTED"
value RuntimeContextChangeReason.first_run_approval_rejected = "FIRST_RUN_APPROVAL_REJECTED"
value RuntimeContextChangeReason.blocked_run_approval_requested = "BLOCKED_RUN_APPROVAL_REQUESTED"
value RuntimeContextChangeReason.blocked_run_rejected = "BLOCKED_RUN_REJECTED"
value RuntimeContextChangeReason.first_run_started = "FIRST_RUN_STARTED"
value RuntimeContextChangeReason.milestone_run_queued = "MILESTONE_RUN_QUEUED"
value RuntimeContextChangeReason.stage_run_started = "STAGE_RUN_STARTED"
value RuntimeContextChangeReason.stage_run_succeeded = "STAGE_RUN_SUCCEEDED"
value RuntimeContextChangeReason.stage_run_failed = "STAGE_RUN_FAILED"
value RuntimeContextChangeReason.candidate_ready = "CANDIDATE_READY"
value RuntimeContextChangeReason.candidate_revision_blocked = "CANDIDATE_REVISION_BLOCKED"
value RuntimeContextChangeReason.candidate_accepted = "CANDIDATE_ACCEPTED"
value RuntimeContextChangeReason.candidate_rejected = "CANDIDATE_REJECTED"
value RuntimeContextChangeReason.triage_development_completed = "TRIAGE_DEVELOPMENT_COMPLETED"

-- A value of the state inside a payload; `time` is a datetime, counted in microseconds.
pub data FieldValue : Type 0 where
  null : FieldValue
  text : String → FieldValue
  time : ℕ → FieldValue

-- One entry of `changes`: the field with its value `from` and `to`.
pub record FieldChange : Type 0 where
  pub name : String
  pub before : FieldValue
  pub after : FieldValue

pub data PayloadValue : Type 0 where
  str : String → PayloadValue
  opt_str : Option String → PayloadValue
  number : ℕ → PayloadValue
  flag : Bool → PayloadValue
  changes : List FieldChange → PayloadValue

pub record ExecutionEvent : Type 0 where
  pub triage_id : String
  pub event_type : ExecutionEventType
  pub payload : List (String × PayloadValue)

abbrev pub is_accepted : ExecutionEventType → Bool
is_accepted ExecutionEventType.candidate_accepted = true
is_accepted _ = false

abbrev pub is_rejected : ExecutionEventType → Bool
is_rejected ExecutionEventType.candidate_rejected = true
is_rejected _ = false

abbrev pub is_ready : ExecutionEventType → Bool
is_ready ExecutionEventType.candidate_ready = true
is_ready _ = false

abbrev pub is_revision_requested : ExecutionEventType → Bool
is_revision_requested ExecutionEventType.candidate_revision_requested = true
is_revision_requested _ = false
