-- ===== src/Takeover/Service/Settled.antt =====
-- The worker's loop as a whole (`_execute` of src/agentplanex/services/auto_takeover/_service.py).

use agent_panel_x.Event.{ExecutionEvent}
use agent_panel_x.Prelude.{
  ℕ, String, ◌≡◌, refl, inl, inr, false, Option, none, some, arith, Error, Result, ok, err,
  Result-cases, error_message,
}
use agent_panel_x.Takeover.{TakeoverRun, TakeoverAttempt, eq_nat}
use agent_panel_x.Takeover.Reachable.{Reachable}
use agent_panel_x.Takeover.Service.{TakeoverStore}
use agent_panel_x.Takeover.Service.Ending.{IsOver, fail-IsOver}
use agent_panel_x.Takeover.Service.Execute.{
  Outside, RoundEnd, decided, again, Exit, give_up, leave, after_round, rounds, execute,
}
use agent_panel_x.Takeover.Service.Answer.{Decision}
use agent_panel_x.Takeover.Service.Warrants.{KeepsReachable, IsDecided}
use agent_panel_x.Takeover.Service.Rounds.{RoundHolds, take_round-Holds}

-- How the worker leaves: the run is RUNNING no more, and an exit with a decision stands on it.
abbrev pub ExitHolds : Exit → String → String → TakeoverStore → Type 0
ExitHolds Exit.recovered triage_id run_id s = IsDecided Decision.yes triage_id run_id s
ExitHolds Exit.still_blocked triage_id run_id s = IsDecided Decision.no triage_id run_id s
ExitHolds Exit.exit_failed triage_id run_id s = Unit

abbrev pub Settled : String → String → Option (Result Exit) × TakeoverStore → Type 0
Settled triage_id run_id end =
    (exit : Exit) × (s' : TakeoverStore) × (end ≡ (some (ok exit), s'))
    × IsOver run_id s'.takeovers
    × ExitHolds exit triage_id run_id s'

give_up-Settled :
    (outside : Outside) (triage_id : String) (run : TakeoverRun) (attempt : TakeoverAttempt)
    (error : Error) (s : TakeoverStore)
    → Reachable s.takeovers
    → Settled triage_id run.run_id (give_up outside triage_id run attempt error s)
unfolding give_up
give_up-Settled outside triage_id run attempt error s reached =
    let (s', failing, over, _) =
      fail-IsOver triage_id run (error_message error) (outside.ended attempt.ordinal) s reached in
    (Exit.exit_failed, s', rw failing refl, over, tt)

leave-Settled :
    (outside : Outside) (triage_id : String) (run : TakeoverRun) (attempt : TakeoverAttempt)
    (decision : Decision) (s : TakeoverStore)
    → IsOver run.run_id s.takeovers
    → IsDecided decision triage_id run.run_id s
    → Settled triage_id run.run_id (leave outside triage_id run attempt decision s)
unfolding leave give_up
leave-Settled outside triage_id run attempt Decision.no s over holds =
    (Exit.still_blocked, s, refl, over, holds)
leave-Settled outside triage_id run attempt Decision.yes s over holds =
    elim (Result-cases outside.schedule_drive) [
      | inl (u, e) ↦ (Exit.recovered, s, rw e refl, over, holds)
      | inr (x, e) ↦ rw e (give_up-Settled outside triage_id run attempt x s over.reached)
    ]

after_round-Settled :
    (outside : Outside) (triage_id : String) (run : TakeoverRun) (attempt : TakeoverAttempt)
    (rest : TakeoverAttempt → Option String → TakeoverStore → Option (Result Exit) × TakeoverStore)
    (end : Result RoundEnd × TakeoverStore)
    → RoundHolds triage_id run.run_id attempt end
    → ((corrected : TakeoverAttempt) (mismatch : String) (s : TakeoverStore)
        → eq_nat attempt.ordinal 2 ≡ false
        → corrected.ordinal ≡ 2
        → Reachable s.takeovers
        → Settled triage_id run.run_id (rest corrected (some mismatch) s))
    → Settled triage_id run.run_id (after_round outside triage_id run attempt rest end)
unfolding after_round
after_round-Settled outside triage_id run attempt rest (err e, s) holds later =
    give_up-Settled outside triage_id run attempt e s holds
after_round-Settled outside triage_id run attempt rest (ok (decided decision), s) holds later =
    leave-Settled outside triage_id run attempt decision s holds.0 holds.1
after_round-Settled outside triage_id run attempt rest (ok (again corrected mismatch), s) holds
      later =
    later corrected mismatch s holds.1 holds.2 holds.0

-- The worker of a takeover always returns, within two rounds, whatever the external Agent, the clock and the
-- drive's scheduling answer, if the Agent does to the tables of takeovers only what their repository can:
-- the run is RUNNING no more; where it exits as recovered, its row says YES and the project is IN_PROGRESS
-- with a QUEUED StageRun, and where it exits as still blocked, its row says NO with an attribution and the
-- project is BLOCKED.
pub execute-Settled :
    (outside : Outside) (triage_id : String) (trigger : ℕ × ExecutionEvent) (run : TakeoverRun)
    (attempt : TakeoverAttempt) (s : TakeoverStore)
    → KeepsReachable outside
    → Reachable s.takeovers
    → Settled triage_id run.run_id (execute outside triage_id trigger run attempt s)
unfolding execute rounds
execute-Settled outside triage_id n run attempt s keeps reached =
    after_round-Settled outside triage_id run attempt _ _
      (take_round-Holds outside triage_id n run attempt none s keeps reached)
      (λ corrected mismatch s1 first second reached1.
        after_round-Settled outside triage_id run corrected _ _
          (take_round-Holds outside triage_id n run corrected (some mismatch) s1 keeps reached1)
          (λ c m s2 not_second is_second reached2. absurd (ground (arith, second))))
