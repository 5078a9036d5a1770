-- ===== src/Delivery/Driver/Stages/Reconcile.antt =====
-- What the reconciliation of interrupted work does.
use agent_panel_x.Delivery.Driver.Stages.Outcome.{submit_revision_failure-state}
use agent_panel_x.Prelude.{
  [], some, filter, map, ℕ, String, ◌≡◌, refl, sym, ap, ◌∙◌, inl, inr, Bool, true, false, none,
  List, ◌∷◌, arith, if◌then◌else◌, length, all, Ensures, Ensures-bind, Ensures-ok, raising, ok,
  Result-cases,
}
use agent_panel_x.State.{blocked, ProjectRuntimeState, post_init}
use agent_panel_x.Delivery.Models.{failed, StageRun, is_revision}
use agent_panel_x.Runtime.{World}
use agent_panel_x.Runtime.Transition.{transition-moved}
use agent_panel_x.Delivery.StageRuns
use agent_panel_x.Delivery.StageRuns.{is_active_of, fail_row}
use agent_panel_x.Table.Amending.{amend-none}
use agent_panel_x.Table.Updates.{count-zero-find}
use agent_panel_x.Delivery.StageRuns.Active.{fail_active-clears, fail_active-parts, active_count}
use agent_panel_x.Delivery.Driver.Contract.{block_runtime_execution}
use agent_panel_x.Delivery.Driver.Stages.{
  reconcile_interrupted_work, reconcile_failed, submit_failures, submit_revision_failure,
}

-- What the reconciliation leaves.
pub record Reconciled (w : World) (finished_at : ℕ) (failure : String) (failed_runs : List StageRun)
    (w' : World) : Type 0 where
  pub runs :
      failed_runs
      ≡ map
          (fail_row w.state.triage_id failure finished_at)
          (filter (is_active_of w.state.triage_id) w.stage_runs)
  pub rows : w'.stage_runs ≡ map (fail_row w.state.triage_id failure finished_at) w.stage_runs
  pub inactive : StageRuns.get_active w.state.triage_id w'.stage_runs ≡ none
  pub every : length failed_runs ≡ active_count w.state.triage_id w.stage_runs
  pub state :
      w'.state
      ≡ (if all is_revision failed_runs then w.state else record w.state { status = blocked })

block_runtime_execution-at :
    (s t : ProjectRuntimeState)
    → block_runtime_execution s ≡ ok t
    → t ≡ record s { status = blocked }
unfolding raising block_runtime_execution post_init
block_runtime_execution-at s t h = ground arith

submit_failures-kept :
    (failure message_id : String) (rs : List StageRun) (w w' : World)
    → submit_failures failure message_id rs w ≡ ok w'
    → (w'.state ≡ w.state) × (w'.stage_runs ≡ w.stage_runs)
unfolding raising submit_failures
submit_failures-kept failure message_id [] w w' h = (ground arith, ground arith)
submit_failures-kept failure message_id (r ∷ rs) w w' h =
    elim (Result-cases (submit_revision_failure (is_revision r) r failure message_id w)) [
      | inl (v, e) ↦
          (let (s, t) = submit_revision_failure-state (is_revision r) r failure message_id w v e in
            let (s', t') = submit_failures-kept failure message_id rs v w' (ground (arith, e)) in
            (s' ∙ s, t' ∙ t))
      | inr (x, e) ↦ absurd (ground (arith, e))
    ]

interrupted_state :
    (revisions : Bool) (s t : ProjectRuntimeState)
    → (if revisions then (λ (latest : ProjectRuntimeState). ok latest) else block_runtime_execution)
        s
      ≡ ok t
    → t ≡ (if revisions then s else record s { status = blocked })
interrupted_state true s t h = ground arith
interrupted_state false s t h = block_runtime_execution-at s t h

reconcile_rows :
    (finished_at : ℕ) (failed_runs : List StageRun) (failure message_id : String)
    (rows : List StageRun) (w : World)
    → failed_runs
      ≡ map
          (fail_row w.state.triage_id failure finished_at)
          (filter (is_active_of w.state.triage_id) w.stage_runs)
    → rows ≡ map (fail_row w.state.triage_id failure finished_at) w.stage_runs
    → StageRuns.get_active w.state.triage_id rows ≡ none
    → length failed_runs ≡ active_count w.state.triage_id w.stage_runs
    → Ensures
        (reconcile_failed failed_runs failure message_id rows w)
        (λ result. Reconciled w finished_at failure result.0 result.1)
unfolding reconcile_failed
reconcile_rows n [] failure message_id rows w runs table clear every = Ensures-ok _ _ (record {
  runs = runs;
  rows = sym (
      amend-none (is_active_of w.state.triage_id) (is_active_of w.state.triage_id)
        (StageRuns.finished failed none (some failure) n) (λ r active. active) w.stage_runs
        (sym every));
  inactive = count-zero-find (is_active_of w.state.triage_id) w.stage_runs (sym every);
  every = every;
  state = refl;
})
reconcile_rows n (r ∷ rs) failure message_id rows w runs given clear every =
    Ensures-bind _ _ λ step moves. Ensures-bind _ _ λ final sent.
      let (m, _, e) = transition-moved _ _ (record w { stage_runs = rows }) step.0 step.1 moves in
      let (kept, table) = submit_failures-kept failure message_id (r ∷ rs) step.1 final sent in
      Ensures-ok _ _ (record {
        runs = runs;
        rows = table ∙ ap (λ (v : World). v.stage_runs) e ∙ given;
        inactive = ground (arith, clear, table, e);
        every = every;
        state =
            kept
            ∙ ap (λ (v : World). v.state) e
            ∙ interrupted_state (all is_revision (r ∷ rs)) w.state step.0 m;
      })

-- After interrupted work is reconciled the project has no active StageRun: every row that was active is
-- FAILED with the given failure and time, the other rows are as they were, and what is returned is these
-- failed rows. The project is BLOCKED, unless every failed row was the revision of a Candidate (or no
-- work was active): then the Candidate is kept, and the state is as it was.
pub reconcile_interrupted_work-Reconciled :
    (finished_at : ℕ) (failure message_id : String) (w w' : World) (failed_runs : List StageRun)
    → reconcile_interrupted_work finished_at failure message_id w ≡ ok (failed_runs, w')
    → Reconciled w finished_at failure failed_runs w'
unfolding reconcile_interrupted_work
reconcile_interrupted_work-Reconciled finished_at failure message_id w w' failed_runs h =
    (Ensures-bind _ _ λ cleared e.
        let (clear, every, runs) =
          fail_active-clears w.state.triage_id finished_at failure w.stage_runs cleared.0 cleared.1
            e in
        let (_, table, _) =
          fail_active-parts w.state.triage_id finished_at failure w.stage_runs cleared.0 cleared.1
            e in
        reconcile_rows finished_at cleared.0 failure message_id cleared.1 w runs table clear
          every).at
      (failed_runs, w') h
