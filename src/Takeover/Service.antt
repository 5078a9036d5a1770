-- ===== src/Takeover/Service.antt =====
-- The service of automatic takeovers (src/agentplanex/services/auto_takeover/_service.py): what starts a
-- takeover, how its result is tested, and how it ends. The identity of an event is its place in the
-- Timeline, counted from 1. Times are in microseconds.
pub mod Answer
pub mod Execute
pub mod Ending
pub mod Triggers
pub mod Release
pub mod Warrants
pub mod Rounds
pub mod Settled
use Prim.Native.String
use agent_panel_x.Prelude.{
  [], ◌>>=◌, ◌>>◌, ℕ, zero, suc, String, Bool, true, false, not, ◌&&◌, Option, none, some, List,
  ◌∷◌, ◌==◌, ltb, leb, last?, filter, find, is_none, normalize, value_error, if◌then◌else◌, Result,
  ok, err, raise_if,
}
use agent_panel_x.Event.{ExecutionEvent, ExecutionEventType, FieldChange, FieldValue, PayloadValue}
use agent_panel_x.State.{ProjectRuntimeState, is_blocked}
use agent_panel_x.Runtime.{World, publish}
use agent_panel_x.Delivery.StageRuns
use agent_panel_x.Takeover.{
  TakeoverStatus, running, takeover_yes, takeover_no, failed, ArtifactDescriptor, TakeoverRun,
  TakeoverAttempt, Takeovers, is_running, get, latest,
}
use agent_panel_x.Takeover.Operations.{Fresh, Started, begin, complete}

-- `AutoTakeoverService.__post_init__`, without the settings file.
unfoldable pub check_service : (budget max_parallel_features : ℕ) → Result (Unit {0})
check_service budget max_parallel_features = do
  raise_if (leb budget 0) (value_error "AutoTakeover budget must be positive")
  raise_if (ltb 1800000000 budget) (value_error "AutoTakeover budget cannot exceed 1800 seconds")
  raise_if (leb max_parallel_features 0)
      (value_error "AutoTakeover parallel Feature limit must be positive")

pub record TakeoverStore : Type 0 where
  pub world : World
  pub takeovers : Takeovers

abbrev pub TakeoverAction : Type 0 → Type 0
TakeoverAction A = TakeoverStore → Result (A × TakeoverStore)

-- The rows of the Timeline with their identities, and those of a Feature.
numbered : ℕ → List ExecutionEvent → List (ℕ × ExecutionEvent)
numbered n [] = []
numbered n (e ∷ es) = (n, e) ∷ numbered (suc n) es

unfoldable pub events_of : String → World → List (ℕ × ExecutionEvent)
unfolding numbered
events_of triage_id w = filter (λ row. row.1.triage_id == triage_id) (numbered 1 w.timeline)

last_id : Option (ℕ × ExecutionEvent) → ℕ
last_id none = 0
last_id (some row) = row.0

-- `event_watermark`.
unfoldable pub event_watermark : String → World → ℕ
unfolding events_of last_id
event_watermark triage_id w = last_id (last? (events_of triage_id w))

-- `_is_blocked_transition`.
is_text : String → FieldValue → Bool
is_text s (FieldValue.text t) = t == s
is_text s _ = false

blocks : Option FieldChange → Bool
unfolding is_text
blocks none = false
blocks (some change) = is_text "IN_PROGRESS" change.before && is_text "BLOCKED" change.after

changes_block : Option (String × PayloadValue) → Bool
unfolding blocks
changes_block (some (key, PayloadValue.changes fields)) =
    blocks (find (λ field. field.name == "status") fields)
changes_block _ = false

is_context_update : ExecutionEventType → Bool
is_context_update ExecutionEventType.runtime_context_updated = true
is_context_update _ = false

unfoldable pub is_blocked_transition : ExecutionEvent → Bool
unfolding is_context_update changes_block
is_blocked_transition event =
    is_context_update event.event_type
    && changes_block (find (λ entry. entry.0 == "changes") event.payload)

-- `self._states.get`.
unfoldable pub state_of : String → World → Option ProjectRuntimeState
state_of triage_id w = if w.state.triage_id == triage_id then some w.state else none

-- `_new_blocked_event`: the last new event that blocked the project, if it is still BLOCKED.
unfoldable pub still_blocked : Option ProjectRuntimeState → Bool
still_blocked none = false
still_blocked (some state) = is_blocked state.status

unfoldable pub new_blocked_event : String → ℕ → World → Option (ℕ × ExecutionEvent)
unfolding events_of is_blocked_transition state_of still_blocked
new_blocked_event triage_id after_event_id w =
    if still_blocked (state_of triage_id w)
    then last? (
        filter (λ row. ltb after_event_id row.0 && is_blocked_transition row.1)
          (events_of triage_id w))
    else none

-- `_insert_event`.
unfoldable pub insert_event :
    String → ExecutionEventType → List (String × PayloadValue) → TakeoverStore → TakeoverStore
unfolding publish
insert_event triage_id event_type payload s = record s {
  world =
      publish (record { triage_id = triage_id; event_type = event_type; payload = payload })
        s.world;
}

abbrev pub started_payload :
    TakeoverRun → TakeoverAttempt → Option String → List (String × PayloadValue)
started_payload run attempt correction =
    ("run_id", PayloadValue.str run.run_id)
    ∷ ("attempt_id", PayloadValue.str attempt.attempt_id)
    ∷ ("attempt", PayloadValue.number attempt.ordinal)
    ∷ ("trigger_event_id", PayloadValue.number run.trigger_event_id)
    ∷ (elim correction [ none ↦ [] | some text ↦ ("correction", PayloadValue.str text) ∷ [] ])

-- `" ".join(error.split())[:2_000] or "AutoTakeover failed"`.
prefix : ℕ → String → String
prefix zero s = String.[]
prefix (suc n) String.[] = String.[]
prefix (suc n) (String.◌∷◌ c s) = String.◌∷◌ c (prefix n s)

or_text : String → String → String
or_text String.[] fallback = fallback
or_text (String.◌∷◌ c s) fallback = String.◌∷◌ c s

unfoldable pub bounded : String → String
unfolding prefix or_text normalize
bounded error = or_text (prefix 2000 (normalize error)) "AutoTakeover failed"

-- `_fail`: nothing happens to a run that is not RUNNING.
abbrev pub is_run_active : Option TakeoverRun → Bool
is_run_active none = false
is_run_active (some r) = is_running r.status

abbrev pub failed_payload : TakeoverRun → (error : String) → List (String × PayloadValue)
failed_payload run error =
    ("run_id", PayloadValue.str run.run_id)
    ∷ ("trigger_event_id", PayloadValue.number run.trigger_event_id)
    ∷ ("error", PayloadValue.str error)
    ∷ []

unfoldable pub fail_active_run :
    String → TakeoverRun → (error : String) → (now : ℕ) → TakeoverAction (Unit {0})
unfolding insert_event
fail_active_run triage_id run error now s = do
  done ← complete now run.run_id failed none (some error) s.takeovers
  ok (
    tt,
    insert_event triage_id ExecutionEventType.auto_takeover_failed (failed_payload run error)
        (record s { takeovers = done.1 }),
  )

unfoldable pub fail :
    String → TakeoverRun → (error : String) → (now : ℕ) → TakeoverAction (Unit {0})
unfolding fail_active_run
fail triage_id run error now s =
    if is_run_active (get run.run_id s.takeovers)
    then fail_active_run triage_id run (bounded error) now s
    else ok (tt, s)

-- `after_drive_released`. A takeover that has started is handed to a worker, unless the service has stopped
-- accepting since: then it fails at once.
pub record Job : Type 0 where
  pub trigger : ℕ × ExecutionEvent
  pub run : TakeoverRun
  pub attempt : TakeoverAttempt

started_job :
    String
    → ℕ × ExecutionEvent
    → TakeoverStore
    → Option Started × Takeovers
    → Option Job × TakeoverStore
unfolding insert_event
started_job triage_id trigger s (none, takeovers) = (none, record s { takeovers = takeovers })
started_job triage_id trigger s (some started, takeovers) = (
  some (record { trigger = trigger; run = started.run; attempt = started.attempt }),
  insert_event triage_id ExecutionEventType.auto_takeover_started
      (started_payload started.run started.attempt none) (record s { takeovers = takeovers }),
)

unfoldable pub start_takeover :
    Fresh → String → Option (ℕ × ExecutionEvent) → TakeoverAction (Option Job)
unfolding started_job
start_takeover fresh triage_id none s = ok (none, s)
start_takeover fresh triage_id (some trigger) s = do
  begun ← begin fresh triage_id trigger.0 s.takeovers
  ok (started_job triage_id trigger s begun)

abbrev pub settle_takeover :
    {A : Type 0} → Result (A × TakeoverStore) → TakeoverStore → Result A × TakeoverStore
settle_takeover (ok (a, s')) s = (ok a, s')
settle_takeover (err e) s = (err e, s)

abbrev pub no_job : Result (Unit {0} × TakeoverStore) → Result (Option Job × TakeoverStore)
no_job (ok (u, s)) = ok (none, s)
no_job (err e) = err e

submit_job :
    (accepting : Bool)
    → String
    → (failed_at : ℕ) → Result (Option Job × TakeoverStore)
    → TakeoverStore
    → Result (Option Job) × TakeoverStore
submit_job accepting triage_id failed_at (err e) s = (err e, s)
submit_job accepting triage_id failed_at (ok (none, s')) s = (ok none, s')
submit_job accepting triage_id failed_at (ok (some job, s')) s =
    if accepting
    then (ok (some job), s')
    else settle_takeover
        (no_job (
          fail triage_id job.run "AutoTakeover stopped before its worker could start" failed_at s'))
        s'

unfoldable pub after_drive_released :
    (accepting accepting_worker : Bool)
    → Fresh
    → (failed_at : ℕ) → String
    → (after_event_id : ℕ) → TakeoverStore
    → Result (Option Job) × TakeoverStore
unfolding submit_job
after_drive_released accepting accepting_worker fresh failed_at triage_id after_event_id s =
    if not accepting
    then (ok none, s)
    else submit_job accepting_worker triage_id failed_at
        (start_takeover fresh triage_id (new_blocked_event triage_id after_event_id s.world) s) s

-- `snapshot`.
pub data Phase : Type 0 where
  recovering recovered blocked phase_failed : Phase

unfoldable pub phase_of : TakeoverStatus → Phase
phase_of running = Phase.recovering
phase_of takeover_yes = Phase.recovered
phase_of takeover_no = Phase.blocked
phase_of failed = Phase.phase_failed

pub record AutoTakeoverSnapshot : Type 0 where
  pub trigger_event_id : ℕ
  pub phase : Phase
  pub attribution : Option ArtifactDescriptor
  pub error : Option String

snapshot_of : Option TakeoverRun → Option AutoTakeoverSnapshot
unfolding phase_of
snapshot_of none = none
snapshot_of (some r) = some (record {
  trigger_event_id = r.trigger_event_id;
  phase = phase_of r.status;
  attribution = r.attribution;
  error = r.error;
})

unfoldable pub snapshot : String → Takeovers → Option AutoTakeoverSnapshot
unfolding snapshot_of
snapshot triage_id s = snapshot_of (latest triage_id s)

unfoldable pub attribution_required : AutoTakeoverSnapshot → Bool
attribution_required view = elim view.phase [ Phase.blocked ↦ is_none view.attribution | _ ↦ false ]
