-- ===== src/Takeover/Operations.antt =====
-- The operations of the repository of takeovers that write to its tables
-- (src/agentplanex/infrastructure/sqlite/repositories/auto_takeover.py).

use agent_panel_x.Prelude.{
  [], ◌>>=◌, ◌>>◌, ℕ, String, Bool, not, ◌&&◌, ◌||◌, Option, none, some, List, ◌∷◌, ◌++◌, map, ◌==◌,
  if◌then◌else◌, is_none, is_some, find, value_error, integrity_error, Result, ok, raise_if,
  or_raise,
}
use agent_panel_x.Table.{update_first, amend}
use agent_panel_x.Takeover.{
  TakeoverStatus, AttemptStatus, ArtifactDescriptor, TakeoverRun, TakeoverAttempt, Takeovers,
  is_running, is_active, decision_of, eq_nat, has_run_id, has_trigger, active_of, running_with_id,
  active_attempt_of, get_by_trigger, get_active, get_active_attempt, has_attempt_id, has_token,
  has_ordinal, running, active, invalid, completed, attempt_failed,
}

-- The insertion of a run: its key, its trigger and the index on the active run of a Feature.
unfoldable pub insert_run : TakeoverRun → List TakeoverRun → Result (List TakeoverRun)
insert_run r runs = do
  raise_if (is_some (find (has_run_id r.run_id) runs)) (integrity_error "auto_takeover_run.run_id")
  raise_if (is_some (find (has_trigger r.trigger_event_id) runs))
      (integrity_error "auto_takeover_run.trigger_event_id")
  raise_if (is_running r.status && is_some (find (active_of r.triage_id) runs))
      (integrity_error "auto_takeover_one_active_feature_idx")
  ok (runs ++ r ∷ [])

-- `_insert_attempt`: the key, the ordinal of the run, which is 1 or 2, the token, and the index on the
-- active attempt of a run.
abbrev pub new_attempt :
    (attempt_id token : String) → (run_id : String) → (ordinal now : ℕ) → TakeoverAttempt
new_attempt attempt_id token run_id ordinal now = record {
  attempt_id = attempt_id;
  run_id = run_id;
  ordinal = ordinal;
  status = active;
  fence_token = some token;
  error = none;
  started_at = now;
  finished_at = none;
}

unfoldable pub insert_attempt :
    (attempt_id token : String)
    → (run_id : String) → (ordinal now : ℕ) → List TakeoverAttempt
    → Result (TakeoverAttempt × List TakeoverAttempt)
insert_attempt attempt_id token run_id ordinal now attempts = do
  let attempt = new_attempt attempt_id token run_id ordinal now
  raise_if (is_some (find (has_attempt_id attempt_id) attempts))
      (integrity_error "auto_takeover_attempt.attempt_id")
  raise_if (not (eq_nat ordinal 1 || eq_nat ordinal 2))
      (integrity_error "auto_takeover_attempt.ordinal")
  raise_if (is_some (find (has_token token) attempts))
      (integrity_error "auto_takeover_attempt.fence_token")
  raise_if (is_some (find (has_ordinal run_id ordinal) attempts))
      (integrity_error "auto_takeover_attempt.run_id, ordinal")
  raise_if (is_some (find (active_attempt_of run_id) attempts))
      (integrity_error "auto_takeover_one_active_attempt_idx")
  ok (attempt, attempts ++ attempt ∷ [])

abbrev pub new_run : (run_id triage_id : String) → (trigger_event_id now : ℕ) → TakeoverRun
new_run run_id triage_id trigger_event_id now = record {
  run_id = run_id;
  triage_id = triage_id;
  trigger_event_id = trigger_event_id;
  status = running;
  decision = none;
  attribution = none;
  error = none;
  started_at = now;
  finished_at = none;
  issue_number = none;
  issue_url = none;
}

-- The fresh identities of an operation, with its reading of the clock.
pub record Fresh : Type 0 where
  pub run_id : String
  pub attempt_id : String
  pub token : String
  pub now : ℕ

-- `begin`: `none` if the trigger was handled or the Feature has an active run.
pub record Started : Type 0 where
  pub run : TakeoverRun
  pub attempt : TakeoverAttempt

unfoldable pub begin_new : Fresh → String → ℕ → Takeovers → Result (Option Started × Takeovers)
begin_new fresh triage_id trigger_event_id s = do
  let run = new_run fresh.run_id triage_id trigger_event_id fresh.now
  runs ← insert_run run s.runs
  inserted ← insert_attempt fresh.attempt_id fresh.token run.run_id 1 fresh.now s.attempts
  ok (
    some (record { run = run; attempt = inserted.0 }),
    record { runs = runs; attempts = inserted.1 },
  )

unfoldable pub begin : Fresh → String → ℕ → Takeovers → Result (Option Started × Takeovers)
begin fresh triage_id trigger_event_id s =
    if is_some (get_by_trigger trigger_event_id s) || is_some (get_active triage_id s)
    then ok (none, s)
    else begin_new fresh triage_id trigger_event_id s

-- The update of the attempt with an identity that is still running.
abbrev pub ending_attempt : String → TakeoverAttempt → Bool
ending_attempt attempt_id a = a.attempt_id == attempt_id && is_active a.status

abbrev pub ended_attempt : AttemptStatus → Option String → ℕ → TakeoverAttempt → TakeoverAttempt
ended_attempt status error now a = record a {
  status = status;
  fence_token = none;
  error = error;
  finished_at = some now;
}

unfoldable pub end_attempt :
    String → AttemptStatus → Option String → ℕ → List TakeoverAttempt → List TakeoverAttempt
end_attempt attempt_id status error now =
    map (amend (ending_attempt attempt_id) (ended_attempt status error now))

-- `correct`.
unfoldable pub correct :
    Fresh → String → (error : String) → Takeovers → Result (TakeoverAttempt × Takeovers)
correct fresh run_id error s = do
  current ←
      or_raise (get_active_attempt run_id s)
        (value_error "AutoTakeover correction is no longer available")
  raise_if (not (eq_nat current.ordinal 1))
      (value_error "AutoTakeover correction is no longer available")
  inserted ←
      insert_attempt fresh.attempt_id fresh.token run_id 2 fresh.now
        (end_attempt current.attempt_id invalid (some error) fresh.now s.attempts)
  ok (inserted.0, record s { attempts = inserted.1 })

-- `complete`.
abbrev pub attempt_status_of : TakeoverStatus → AttemptStatus
attempt_status_of status = if is_some (decision_of status) then completed else attempt_failed

unfoldable pub end_active :
    Option TakeoverAttempt
    → TakeoverStatus
    → Option String
    → ℕ
    → List TakeoverAttempt
    → List TakeoverAttempt
end_active none status error now attempts = attempts
end_active (some a) status error now attempts =
    end_attempt a.attempt_id (attempt_status_of status) error now attempts

abbrev pub completed_run :
    TakeoverStatus → Option ArtifactDescriptor → Option String → ℕ → TakeoverRun → TakeoverRun
completed_run status attribution error now r = record r {
  status = status;
  decision = decision_of status;
  attribution = attribution;
  error = error;
  finished_at = some now;
}

unfoldable pub complete :
    ℕ
    → String
    → TakeoverStatus
    → Option ArtifactDescriptor
    → Option String
    → Takeovers
    → Result (TakeoverRun × Takeovers)
complete now run_id status attribution error s = do
  raise_if (is_running status) (value_error "AutoTakeover cannot complete as RUNNING")
  updated ←
      or_raise
        (update_first (running_with_id run_id) (completed_run status attribution error now) s.runs)
        (value_error "AutoTakeover Run is not active")
  ok (
    updated.0,
    record {
      runs = updated.1;
      attempts = end_active (get_active_attempt run_id s) status error now s.attempts;
    },
  )

-- `record_created_issue`.
abbrev pub without_issue : String → TakeoverRun → Bool
without_issue run_id r = r.run_id == run_id && (is_none r.issue_number && is_none r.issue_url)

unfoldable pub record_created_issue :
    String → (number : ℕ) → (url : String) → Takeovers → Result (TakeoverRun × Takeovers)
record_created_issue run_id number url s = do
  updated ←
      or_raise
        (update_first (without_issue run_id)
          (λ r. record r { issue_number = some number; issue_url = some url }) s.runs)
        (value_error "Attribution Proposal Issue is already recorded")
  ok (updated.0, record s { runs = updated.1 })
