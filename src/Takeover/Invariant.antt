-- ===== src/Takeover/Invariant.antt =====
-- The invariant of the tables of takeovers
-- (src/agentplanex/infrastructure/sqlite/repositories/auto_takeover.py).

use agent_panel_x.Prelude.{ℕ, ◌≤◌, String, ◌≡◌, ◌⊎◌, List, arith, count, All, is_none, is_some}
use agent_panel_x.Takeover.{
  TakeoverRun, TakeoverAttempt, Takeovers, is_running, is_active, decision_of, has_run_id,
  has_trigger, active_of, running_with_id, active_attempt_of, has_attempt_id, has_token,
  has_ordinal,
}
use agent_panel_x.Table.Updates.{count-narrow}

-- A run has its decision and its end as its status says; an attempt is the first or the second of
-- its run, and holds a token as long as it is active.
abbrev pub Recorded : TakeoverRun → Type 0
Recorded r = (r.decision ≡ decision_of r.status) × (is_none r.finished_at ≡ is_running r.status)

abbrev pub Fenced : TakeoverAttempt → Type 0
Fenced a = ((a.ordinal ≡ 1) ⊎ (a.ordinal ≡ 2)) × (is_some a.fence_token ≡ is_active a.status)

-- The invariant of each table, and the one that joins them.
pub record AreRuns (runs : List TakeoverRun) : Type 0 where
  pub one_running : (triage_id : String) → count (active_of triage_id) runs ≤ 1
  pub one_run : (run_id : String) → count (has_run_id run_id) runs ≤ 1
  pub one_trigger : (trigger_event_id : ℕ) → count (has_trigger trigger_event_id) runs ≤ 1
  pub recorded : All Recorded runs

pub record AreAttempts (attempts : List TakeoverAttempt) : Type 0 where
  pub one_attempt : (attempt_id : String) → count (has_attempt_id attempt_id) attempts ≤ 1
  pub one_ordinal :
      (run_id : String) (ordinal : ℕ) → count (has_ordinal run_id ordinal) attempts ≤ 1
  pub one_token : (token : String) → count (has_token token) attempts ≤ 1
  pub fenced : All Fenced attempts

pub record IsSound (s : Takeovers) : Type 0 where
  pub runs_sound : AreRuns s.runs
  pub attempts_sound : AreAttempts s.attempts
  pub attempt_of_run :
      (run_id : String)
      → count (active_attempt_of run_id) s.attempts ≡ count (running_with_id run_id) s.runs

-- A run that is running has one active attempt, and no other run has any.
pub one_active_attempt :
    (s : Takeovers)
    → IsSound s
    → (run_id : String) → count (active_attempt_of run_id) s.attempts ≤ 1
one_active_attempt s sound run_id = ground (
  arith,
  sound.attempt_of_run run_id,
  sound.runs_sound.one_run run_id,
  count-narrow (has_run_id run_id) (running_with_id run_id) s.runs (λ r h. ground arith),
)
