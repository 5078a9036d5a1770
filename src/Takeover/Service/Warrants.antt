-- ===== src/Takeover/Service/Warrants.antt =====
-- What the decision of a takeover stands on, if its result has no mismatch.
use mathlib.Core.Path.{subst}
use agent_panel_x.Prelude.{
  ℕ, String, ◌≡◌, refl, sym, inl, inr, true, Option, none, some, ◌==◌, arith, eq_iff, Bool-cases,
  is_some, ok,
}
use agent_panel_x.State.{in_progress, blocked, ProjectRuntimeState}
use agent_panel_x.Event.{ExecutionEventType}
use agent_panel_x.Runtime.{World, publish}
use agent_panel_x.Delivery.Models.{queued, StageRun}
use agent_panel_x.Delivery.StageRuns
use agent_panel_x.Takeover.{TakeoverRun, TakeoverAttempt, ArtifactDescriptor, Takeovers, get}
use agent_panel_x.Takeover.Operations.{complete}
use agent_panel_x.Takeover.Reachable.{Reachable}
use agent_panel_x.Takeover.Service.{TakeoverStore, insert_event, state_of}
use agent_panel_x.Takeover.Service.Ending.{IsOver, complete-IsOver}
use agent_panel_x.Takeover.Service.Execute.{
  AutoTakeoverPayload, Outside, result_error, status_of, completed_payload,
}
use agent_panel_x.Takeover.Service.Answer.{
  Decision, AutoTakeoverOutput, decision_mismatch, or_next, result_mismatch,
}

-- What the external Agent may do to the tables: only what the repository's operations do.
abbrev pub KeepsReachable : Outside → Type 0
KeepsReachable outside =
    (given : AutoTakeoverPayload) (s : TakeoverStore)
    → Reachable s.takeovers
    → Reachable (outside.invoke given s).1.takeovers

-- What a decision stands on: YES on a project IN_PROGRESS with a QUEUED StageRun, NO on a BLOCKED one
-- with an attribution.
abbrev pub Stands : Decision → String → TakeoverRun → World → Type 0
Stands Decision.yes triage_id row w =
    (w.state.status ≡ in_progress)
    × (r : StageRun) × (StageRuns.get_active triage_id w.stage_runs ≡ some r)
    × (r.status ≡ queued)
Stands Decision.no triage_id row w = (w.state.status ≡ blocked) × (is_some row.attribution ≡ true)

pub record IsDecided (decision : Decision) (triage_id run_id : String) (s : TakeoverStore)
    : Type 0 where
  pub row : TakeoverRun
  pub found : get run_id s.takeovers ≡ some row
  pub its_status : row.status ≡ status_of decision
  pub home : s.world.state.triage_id ≡ triage_id
  pub standing : Stands decision triage_id row s.world

or_next-none : (a b : Option String) → or_next a b ≡ none → (a ≡ none) × (b ≡ none)
unfolding or_next
or_next-none none b h = (refl, h)
or_next-none (some x) b h = absurd (ground arith)

abbrev pub Warrants :
    Decision → Option ArtifactDescriptor → Option StageRun → ProjectRuntimeState → Type 0
Warrants Decision.yes attribution active state =
    (state.status ≡ in_progress) × (r : StageRun) × (active ≡ some r) × (r.status ≡ queued)
Warrants Decision.no attribution active state =
    (state.status ≡ blocked) × (is_some attribution ≡ true)

decision_mismatch-none :
    (decision : Decision) (attribution : Option ArtifactDescriptor) (active : Option StageRun)
    (o : Option ProjectRuntimeState)
    → decision_mismatch decision attribution active o ≡ none
    → (state : ProjectRuntimeState) × (o ≡ some state) × Warrants decision attribution active state
unfolding decision_mismatch
decision_mismatch-none decision attribution active none h = absurd (ground arith)
decision_mismatch-none Decision.yes attribution none (some state) h = absurd (ground arith)
decision_mismatch-none Decision.yes attribution (some r) (some state) h =
    (state, refl, (ground arith, r, refl, ground arith))
decision_mismatch-none Decision.no none active (some state) h = absurd (ground arith)
decision_mismatch-none Decision.no (some descriptor) active (some state) h =
    (state, refl, (ground arith, refl))

state_of-some :
    (triage_id : String) (w : World) (state : ProjectRuntimeState)
    → state_of triage_id w ≡ some state
    → (w.state.triage_id ≡ triage_id) × (w.state ≡ state)
unfolding state_of
state_of-some triage_id w state h = elim (Bool-cases (w.state.triage_id == triage_id)) [
  | inl home ↦ (ground (arith, home, eq_iff w.state.triage_id triage_id), ground (arith, home))
  | inr away ↦ absurd (ground (arith, away))
]

-- A result without a mismatch stands on the state and the rows.
result_mismatch-none :
    (triage_id run_id : String) (attempt : TakeoverAttempt) (result : AutoTakeoverOutput)
    (s : TakeoverStore)
    → result_mismatch triage_id run_id attempt result s ≡ none
    → (s.world.state.triage_id ≡ triage_id)
      × Warrants result.decision result.attribution
          (StageRuns.get_active triage_id s.world.stage_runs)
          s.world.state
unfolding result_mismatch state_of
result_mismatch-none triage_id run_id attempt result s h =
    let (_, after_run) = or_next-none _ _ h in
    let (_, last) = or_next-none _ _ after_run in
    let (state, is_state, warrants) = decision_mismatch-none _ _ _ _ last in
    let (home, same) = state_of-some triage_id s.world state is_state in
    (
      home,
      subst
          (Warrants result.decision result.attribution
            (StageRuns.get_active triage_id s.world.stage_runs))
          (sym same) warrants,
    )

-- What the Agent answers is tested with the artifact of its result.
pub tested-Warrants :
    (outside : Outside) (triage_id : String) (run : TakeoverRun) (attempt : TakeoverAttempt)
    (result : AutoTakeoverOutput) (s : TakeoverStore)
    → or_next
        (result_error outside result.attribution)
        (result_mismatch triage_id run.run_id attempt result s)
      ≡ none
    → (s.world.state.triage_id ≡ triage_id)
      × Warrants result.decision result.attribution
          (StageRuns.get_active triage_id s.world.stage_runs)
          s.world.state
tested-Warrants outside triage_id run attempt result s h =
    let (_, sound) = or_next-none _ _ h in
    result_mismatch-none triage_id run.run_id attempt result s sound

pub complete_run-IsDecided :
    (now : ℕ) (triage_id : String) (run : TakeoverRun) (result : AutoTakeoverOutput)
    (row : TakeoverRun) (s : TakeoverStore) (t : Takeovers) (decision : Decision)
    → decision ≡ result.decision
    → Reachable s.takeovers
    → (s.world.state.triage_id ≡ triage_id)
      × Warrants decision result.attribution
          (StageRuns.get_active triage_id s.world.stage_runs)
          s.world.state
    → complete now run.run_id (status_of decision) result.attribution none s.takeovers ≡ ok (row, t)
    → IsOver run.run_id t
      × IsDecided decision triage_id run.run_id (
          insert_event triage_id ExecutionEventType.auto_takeover_completed
            (completed_payload run result)
            (record s { takeovers = t }))
unfolding insert_event publish
complete_run-IsDecided now triage_id run result row s t Decision.yes is_yes reached (home, warrants)
      done =
    let (over, found, its_status, _) =
      complete-IsOver now run.run_id (status_of Decision.yes) result.attribution none row
        s.takeovers t reached done in
    (
      over,
      record {
        row = row;
        found = found;
        its_status = its_status;
        home = home;
        standing = warrants;
      },
    )
complete_run-IsDecided now triage_id run result row s t Decision.no is_no reached (home, warrants)
      done =
    let (over, found, its_status, its_artifact) =
      complete-IsOver now run.run_id (status_of Decision.no) result.attribution none row s.takeovers
        t reached done in
    (
      over,
      record {
        row = row;
        found = found;
        its_status = its_status;
        home = home;
        standing = (warrants.0, rw its_artifact warrants.1);
      },
    )
