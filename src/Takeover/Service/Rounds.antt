-- ===== src/Takeover/Service/Rounds.antt =====
-- What a round of a takeover's worker comes to.

use agent_panel_x.Event.{ExecutionEvent}
use agent_panel_x.Prelude.{
  raising, ℕ, String, ◌≡◌, ◌+◌, ◌-◌, refl, ap, inl, inr, false, Option, none, some, Bool-cases,
  Result, ok, err, Result-cases, leb,
}
use agent_panel_x.Delivery.StageRuns
use agent_panel_x.Takeover.{TakeoverRun, TakeoverAttempt, eq_nat}
use agent_panel_x.Takeover.Operations.{correct, complete}
use agent_panel_x.Takeover.Parts.{insert_attempt-parts, correct-parts}
use agent_panel_x.Takeover.Reachable.{Reachable}
use agent_panel_x.Takeover.Service.{TakeoverStore, insert_event, settle_takeover}
use agent_panel_x.Takeover.Service.Ending.{IsOver}
use agent_panel_x.Takeover.Service.Execute.{
  Outside, payload, status_of, complete_run, RoundEnd, decided, again, conclude, after_invoke,
  with_payload, take_round,
}
use agent_panel_x.Takeover.Service.Answer.{AutoTakeoverOutput}
use agent_panel_x.Takeover.Service.Warrants.{
  KeepsReachable, IsDecided, Warrants, tested-Warrants, complete_run-IsDecided,
}

-- What a round comes to.
abbrev pub RoundHolds : String → String → TakeoverAttempt → Result RoundEnd × TakeoverStore → Type 0
RoundHolds triage_id run_id attempt (err e, s) = Reachable s.takeovers
RoundHolds triage_id run_id attempt (ok (decided decision), s) =
    IsOver run_id s.takeovers × IsDecided decision triage_id run_id s
RoundHolds triage_id run_id attempt (ok (again corrected mismatch), s) =
    Reachable s.takeovers × (eq_nat attempt.ordinal 2 ≡ false) × (corrected.ordinal ≡ 2)

conclude-Holds :
    (outside : Outside) (triage_id : String) (run : TakeoverRun) (attempt : TakeoverAttempt)
    (result : AutoTakeoverOutput) (mismatch : Option String) (s : TakeoverStore)
    → Reachable s.takeovers
    → (mismatch ≡ none
        → (s.world.state.triage_id ≡ triage_id)
          × Warrants result.decision result.attribution
              (StageRuns.get_active triage_id s.world.stage_runs)
              s.world.state)
    → RoundHolds triage_id run.run_id attempt
        (settle_takeover (conclude outside triage_id run attempt result mismatch s) s)
unfolding raising conclude complete_run insert_event
conclude-Holds outside triage_id run attempt result none s reached warrants =
    elim (Result-cases (
      complete (outside.ended attempt.ordinal) run.run_id (status_of result.decision)
        result.attribution none s.takeovers)) [
          | inl ((row, t), done) ↦ rw done (
              complete_run-IsDecided _ triage_id run result row s t result.decision refl reached
                (warrants refl) done)
          | inr (x, e) ↦ rw e reached
        ]
conclude-Holds outside triage_id run attempt result (some text) s reached warrants =
    elim (Bool-cases (eq_nat attempt.ordinal 2)) [
      | inl second ↦ rw second reached
      | inr first ↦
          elim (Result-cases
            (correct (outside.fresh attempt.ordinal) run.run_id text s.takeovers)) [
              | inl ((corrected, t), done) ↦
                  (let (_, _, _, inserted, _) =
                      correct-parts (outside.fresh attempt.ordinal) run.run_id text corrected
                        s.takeovers t done in
                    let (_, (made, _)) = insert_attempt-parts _ _ _ 2 _ _ corrected _ inserted in
                    rw (first, done)
                      (
                        Reachable.correcting (outside.fresh attempt.ordinal) run.run_id text
                            corrected s.takeovers t reached done,
                        first,
                        ap (λ (a : TakeoverAttempt). a.ordinal) made,
                      ))
              | inr (x, e) ↦ rw (first, e) reached
            ]
    ]

after_invoke-Holds :
    (outside : Outside) (triage_id : String) (run : TakeoverRun) (attempt : TakeoverAttempt)
    (deadline : ℕ) (answer : Result AutoTakeoverOutput) (s : TakeoverStore)
    → Reachable s.takeovers
    → RoundHolds triage_id run.run_id attempt
        (after_invoke outside triage_id run attempt deadline answer s)
unfolding after_invoke
after_invoke-Holds outside triage_id run attempt deadline (err e) s reached = reached
after_invoke-Holds outside triage_id run attempt deadline (ok result) s reached =
    elim (Bool-cases (leb deadline (outside.after attempt.ordinal))) [
      | inl late ↦ rw late reached
      | inr timely ↦ rw timely (
          conclude-Holds outside triage_id run attempt result _ s reached
            (tested-Warrants outside triage_id run attempt result s))
    ]

pub take_round-Holds :
    (outside : Outside) (triage_id : String) (trigger : ℕ × ExecutionEvent) (run : TakeoverRun)
    (attempt : TakeoverAttempt) (correction : Option String) (s : TakeoverStore)
    → KeepsReachable outside
    → Reachable s.takeovers
    → RoundHolds triage_id run.run_id attempt
        (take_round outside triage_id trigger run attempt correction s)
unfolding take_round with_payload
take_round-Holds outside triage_id n run attempt correction s keeps reached =
    let deadline = outside.started + outside.budget in
    let now = outside.before attempt.ordinal in
    elim (Bool-cases (leb deadline now)) [
      | inl late ↦ rw late reached
      | inr timely ↦
          elim (Result-cases
            (payload outside triage_id n attempt (deadline - now) correction s.world)) [
              | inl (given, e) ↦
                  rw (timely, e)
                    (after_invoke-Holds outside triage_id run attempt deadline _ _
                      (keeps given s reached))
              | inr (x, e) ↦ rw (timely, e) reached
            ]
    ]
