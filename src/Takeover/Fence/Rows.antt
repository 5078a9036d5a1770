-- ===== src/Takeover/Fence/Rows.antt =====
-- The runs and attempts that a search finds after a move of the fence.

use agent_panel_x.Prelude.{
  ℕ, String, ◌≡◌, refl, inl, inr, false, Option, none, some, List, ◌==◌, arith, eq_iff, Bool-cases,
  Option-cases, find, find-holds,
}
use agent_panel_x.Table.{update_first}
use agent_panel_x.Table.Updates.{count-zero-find, update_first-found}
use agent_panel_x.Table.Finding.{find-only, update_first-drops}
use agent_panel_x.Table.Keeping.{find-amend_key}
use agent_panel_x.Takeover.{
  AttemptStatus, TakeoverStatus, ArtifactDescriptor, TakeoverRun, TakeoverAttempt, Takeovers,
  is_active, has_run_id, active_of, running_with_id, is_running, active_attempt_of, get_active,
  get_active_attempt, has_attempt_id,
}
use agent_panel_x.Takeover.Operations.{ending_attempt, ended_attempt, end_attempt, completed_run}
use agent_panel_x.Takeover.Invariant.{IsSound, AreAttempts}
use agent_panel_x.Takeover.Fence.{fence_of, Sets}

-- An ended attempt does not show in a search for the active attempt of another run.
pub end_attempt-find :
    (status : AttemptStatus) (error : Option String) (now : ℕ) (run_id k : String)
    (a : TakeoverAttempt) (attempts : List TakeoverAttempt)
    → is_active status ≡ false
    → AreAttempts attempts
    → find (active_attempt_of run_id) attempts ≡ some a
    → (k == run_id) ≡ false
    → find (active_attempt_of k) (end_attempt a.attempt_id status error now attempts)
      ≡ find (active_attempt_of k) attempts
unfolding end_attempt
end_attempt-find status error now run_id k a attempts ended sound e other =
    let here = find-holds (active_attempt_of run_id) attempts a e in
    let at_key =
      find-only (has_attempt_id a.attempt_id) (active_attempt_of run_id) attempts a
        (sound.one_attempt a.attempt_id) e (ground (arith, eq_iff a.attempt_id a.attempt_id)) in
    let elsewhere : (a.run_id == k) ≡ false =
      ground (arith, here, eq_iff a.run_id k, eq_iff k run_id, eq_iff a.run_id run_id) in
    find-amend_key (active_attempt_of k) (has_attempt_id a.attempt_id) (ending_attempt a.attempt_id)
      (ended_attempt status error now) (λ x p. ground arith) attempts a
      (sound.one_attempt a.attempt_id) at_key (ground (arith, elsewhere))
      (ground (arith, elsewhere))

-- The runs of two Features differ: the active run of another Feature is not the run with the identity.
other_run :
    (s : Takeovers) (r x : TakeoverRun) (k : String)
    → IsSound s
    → find (has_run_id r.run_id) s.runs ≡ some r
    → get_active k s ≡ some x
    → (k == r.triage_id) ≡ false
    → (x.run_id == r.run_id) ≡ false
other_run s r x k sound at_r at_x other = elim (Bool-cases (x.run_id == r.run_id)) [
  | inl same ↦
      (let at_key =
          find-only (has_run_id r.run_id) (active_of k) s.runs x (sound.runs_sound.one_run r.run_id)
            at_x same in
        let is_r : x ≡ r = ground arith in
        absurd (
          ground (
            arith,
            find-holds (active_of k) s.runs x at_x,
            eq_iff x.triage_id k,
            eq_iff k r.triage_id,
          )))
  | inr differs ↦ differs
]

-- The active run of the Feature that a running run belongs to is that run.
pub running-active :
    (s : Takeovers) (run_id : String) (r : TakeoverRun)
    → IsSound s
    → find (running_with_id run_id) s.runs ≡ some r
    → (get_active r.triage_id s ≡ some r)
      × (find (has_run_id r.run_id) s.runs ≡ some r)
      × (r.run_id ≡ run_id)
running-active s run_id r sound e =
    let here = find-holds (running_with_id run_id) s.runs r e in
    (
      find-only (active_of r.triage_id) (running_with_id run_id) s.runs r
          (sound.runs_sound.one_running r.triage_id) e
          (ground (arith, here, eq_iff r.triage_id r.triage_id)),
      find-only (has_run_id r.run_id) (running_with_id run_id) s.runs r
          (sound.runs_sound.one_run r.run_id) e (ground (arith, eq_iff r.run_id r.run_id)),
      ground (arith, here, eq_iff r.run_id run_id),
    )

-- After its end a Feature has no active run.
pub ended_run-none :
    (now : ℕ) (run_id : String) (status : TakeoverStatus) (attribution : Option ArtifactDescriptor)
    (error : Option String) (old r : TakeoverRun) (s s' : Takeovers)
    → is_running status ≡ false
    → IsSound s
    → find (running_with_id run_id) s.runs ≡ some old
    → update_first (running_with_id run_id) (completed_run status attribution error now) s.runs
      ≡ some (r, s'.runs)
    → get_active old.triage_id s' ≡ none
ended_run-none now run_id status attribution error old r s s' ended sound found updated =
    let change = completed_run status attribution error now in
    let (old', found', made) = update_first-found _ change s.runs s'.runs r updated in
    let same : old' ≡ old = ground arith in
    count-zero-find (active_of old.triage_id) s'.runs (
      update_first-drops (active_of old.triage_id) (running_with_id run_id) change s.runs s'.runs
        old r updated found (sound.runs_sound.one_running old.triage_id)
        (ground (
          arith,
          find-holds (running_with_id run_id) s.runs old found,
          eq_iff old.triage_id old.triage_id,
        ))
        (ground (arith, made, same)))

-- The fence of one Feature is set where the active runs of the others, and their attempts, are kept.
pub Sets-others :
    (s s' : Takeovers) (triage_id : String) (token : Option String)
    → fence_of triage_id s' ≡ token
    → ((k : String) → (k == triage_id) ≡ false → get_active k s' ≡ get_active k s)
    → ((k : String) (x : TakeoverRun)
        → (k == triage_id) ≡ false
        → get_active k s ≡ some x
        → get_active_attempt x.run_id s' ≡ get_active_attempt x.run_id s)
    → Sets triage_id token s s'
Sets-others s s' t token here runs_kept attempts_kept k = elim (Bool-cases (k == t)) [
  | inl same ↦ (let is_t : k ≡ t = ground (arith, eq_iff k t) in rw (same, is_t) here)
  | inr other ↦ elim (Option-cases (get_active k s)) [
    | inl nothing ↦ rw (other, runs_kept k other, nothing) refl
    | inr (x, at_x) ↦ rw (other, runs_kept k other, at_x, attempts_kept k x other at_x) refl
  ]
]

-- The same where the attempts of every other run are kept.
pub Sets-kept :
    (s s' : Takeovers) (r : TakeoverRun) (token : Option String)
    → IsSound s
    → find (has_run_id r.run_id) s.runs ≡ some r
    → fence_of r.triage_id s' ≡ token
    → ((k : String) → (k == r.triage_id) ≡ false → get_active k s' ≡ get_active k s)
    → ((i : String) → (i == r.run_id) ≡ false → get_active_attempt i s' ≡ get_active_attempt i s)
    → Sets r.triage_id token s s'
Sets-kept s s' r token sound by_id here runs_kept attempts_kept =
    Sets-others s s' r.triage_id token here runs_kept
      (λ k x other at_x. attempts_kept x.run_id (other_run s r x k sound by_id at_x other))
