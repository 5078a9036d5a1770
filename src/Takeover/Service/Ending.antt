-- ===== src/Takeover/Service/Ending.antt =====
-- How a run of a takeover ends: the updates of the repository that end it, and `_fail`.

use agent_panel_x.Prelude.{
  raising, ℕ, String, ◌≡◌, refl, ap, inl, inr, true, false, Option, none, some, arith, eq_iff,
  Bool-cases, Option-cases, find, find-holds, ok, Result-cases,
}
use agent_panel_x.Event.{ExecutionEventType}
use agent_panel_x.Runtime.{publish}
use agent_panel_x.Table.Updates.{count-zero-find, update_first-found}
use agent_panel_x.Table.Finding.{find-only, find-narrow, update_first-only, update_first-total}
use agent_panel_x.Takeover.{
  TakeoverStatus, failed, ArtifactDescriptor, TakeoverRun, Takeovers, is_running, has_run_id,
  running_with_id, get,
}
use agent_panel_x.Takeover.Operations.{completed_run, complete}
use agent_panel_x.Takeover.Parts.{complete-parts}
use agent_panel_x.Takeover.Statements.{completed_runs-count}
use agent_panel_x.Takeover.Reachable.{Reachable, reachable_takeovers-Sound}
use agent_panel_x.Takeover.Service.{
  TakeoverStore, insert_event, is_run_active, bounded, failed_payload, fail_active_run, fail,
}

-- The run is not RUNNING, in tables that the repository reaches.
pub record IsOver (run_id : String) (s : Takeovers) : Type 0 where
  pub reached : Reachable s
  pub quiet : find (running_with_id run_id) s.runs ≡ none

-- A run that is RUNNING can be ended.
pub complete-total :
    (now : ℕ) (run_id : String) (status : TakeoverStatus) (attribution : Option ArtifactDescriptor)
    (error : Option String) (old : TakeoverRun) (s : Takeovers)
    → is_running status ≡ false
    → find (running_with_id run_id) s.runs ≡ some old
    → (r : TakeoverRun) × (s' : Takeovers) × (complete now run_id status attribution error s
        ≡ ok (r, s'))
unfolding raising complete
complete-total now run_id status attribution error old s ended found =
    let (rows, updated) =
      update_first-total (running_with_id run_id) (completed_run status attribution error now)
        s.runs old found in
    elim (Result-cases (complete now run_id status attribution error s)) [
      | inl ((r, s'), e) ↦ (r, s', e)
      | inr (x, e) ↦ absurd (ground (arith, ended, updated))
    ]

-- A run that has been ended is in its table with the status, and RUNNING no more.
pub complete-IsOver :
    (now : ℕ) (run_id : String) (status : TakeoverStatus) (attribution : Option ArtifactDescriptor)
    (error : Option String) (r : TakeoverRun) (s s' : Takeovers)
    → Reachable s
    → complete now run_id status attribution error s ≡ ok (r, s')
    → IsOver run_id s'
      × (get run_id s' ≡ some r)
      × (r.status ≡ status)
      × (r.attribution ≡ attribution)
complete-IsOver now run_id status attribution error r s s' reached e =
    let sound = reachable_takeovers-Sound s reached in
    let reached' = Reachable.completing now run_id status attribution error r s s' reached e in
    let sound' = reachable_takeovers-Sound s' reached' in
    let (ended, updated, _) = complete-parts now run_id status attribution error r s s' e in
    let (old, found, made) = update_first-found _ _ s.runs s'.runs r updated in
    (
      record {
        reached = reached';
        quiet = count-zero-find (running_with_id run_id) s'.runs (
            ground (
              arith,
              completed_runs-count now run_id status attribution error r s.runs s'.runs ended
                  sound.runs_sound updated run_id,
              eq_iff run_id run_id,
            ));
      },
      update_first-only (has_run_id run_id) _ _ s.runs s'.runs r updated
          (sound'.runs_sound.one_run run_id)
          (ground (arith, made, find-holds (running_with_id run_id) s.runs old found)),
      ap (λ (x : TakeoverRun). x.status) made,
      ap (λ (x : TakeoverRun). x.attribution) made,
    )

-- The tests of `_fail` and of the result agree with the table: no run is RUNNING with the identity unless
-- the row with that identity is.
inactive-quiet :
    (s : Takeovers) (run_id : String)
    → Reachable s
    → is_run_active (get run_id s) ≡ false
    → find (running_with_id run_id) s.runs ≡ none
inactive-quiet s run_id reached idle = elim (Option-cases (find (running_with_id run_id) s.runs)) [
  | inl nothing ↦ nothing
  | inr (x, found) ↦
      (let sound = reachable_takeovers-Sound s reached in
        let here = find-holds (running_with_id run_id) s.runs x found in
        let its =
          find-only (has_run_id run_id) (running_with_id run_id) s.runs x
            (sound.runs_sound.one_run run_id) found (ground (arith, here)) in
        absurd (ground (arith, here, its)))
]

active-running :
    (s : Takeovers) (run_id : String)
    → Reachable s
    → is_run_active (get run_id s) ≡ true
    → (old : TakeoverRun) × (find (running_with_id run_id) s.runs ≡ some old)
active-running s run_id reached live = elim (Option-cases (get run_id s)) [
  | inl nothing ↦ absurd (ground (arith, nothing))
  | inr (x, found) ↦ (
    x,
    find-narrow (has_run_id run_id) (running_with_id run_id) s.runs x (λ r h. ground arith) found
        (ground (arith, find-holds (has_run_id run_id) s.runs x found)),
  )
]

-- `_fail` always returns: afterwards the run is not RUNNING, and the state is as it was.
pub fail-IsOver :
    (triage_id : String) (run : TakeoverRun) (error : String) (now : ℕ) (s : TakeoverStore)
    → Reachable s.takeovers
    → (s' : TakeoverStore) × (fail triage_id run error now s ≡ ok (tt, s'))
      × IsOver run.run_id s'.takeovers
      × (s'.world.state ≡ s.world.state)
unfolding raising fail fail_active_run insert_event publish
fail-IsOver triage_id run error now s reached =
    elim (Bool-cases (is_run_active (get run.run_id s.takeovers))) [
      | inl live ↦
          (let (old, found) = active-running s.takeovers run.run_id reached live in
            let (r, t, done) =
              complete-total now run.run_id failed none (some (bounded error)) old s.takeovers refl
                found in
            let (over, _, _, _) =
              complete-IsOver now run.run_id failed none (some (bounded error)) r s.takeovers t
                reached done in
            (
              insert_event triage_id ExecutionEventType.auto_takeover_failed
                  (failed_payload run (bounded error)) (record s { takeovers = t }),
              rw (live, done) refl,
              over,
              refl,
            ))
      | inr idle ↦ (
        s,
        rw idle refl,
        record { reached = reached; quiet = inactive-quiet s.takeovers run.run_id reached idle },
        refl,
      )
    ]
