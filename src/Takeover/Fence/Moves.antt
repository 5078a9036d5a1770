-- ===== src/Takeover/Fence/Moves.antt =====
-- How the operations of the repository move the fence of a takeover.

use agent_panel_x.Prelude.{
  [], List, ℕ, String, ◌≡◌, refl, sym, ap, ◌∙◌, inl, inr, true, false, Option, none, some, ◌∷◌,
  ◌==◌, arith, eq_iff, Bool-cases, Option-cases, find, find-holds, ◌||◌, is_some, ok,
}
use agent_panel_x.Table.Updates.{find-none-count, update_first-found}
use agent_panel_x.Table.Finding.{find-le-count}
use agent_panel_x.Table.Keeping.{find-append_none, find-append_last, find-update_first}
use agent_panel_x.Takeover.{
  TakeoverStatus, ArtifactDescriptor, TakeoverRun, TakeoverAttempt, Takeovers, invalid, has_run_id,
  active_of, running_with_id, active_attempt_of, get_active, get_active_attempt, get_by_trigger,
}
use agent_panel_x.Takeover.Operations.{
  Fresh, Started, new_attempt, new_run, begin, begin_new, end_attempt, correct, end_active,
  completed_run, complete, attempt_status_of,
}
use agent_panel_x.Takeover.Parts.{
  insert_run-parts, insert_attempt-parts, begin_new-parts, correct-parts, complete-parts,
}
use agent_panel_x.Takeover.Reachable.{Reachable, reachable_takeovers-Sound}
use agent_panel_x.Takeover.Statements.{attempt_status-ended}
use agent_panel_x.Takeover.Fence.{active_run-attempt, fence_of, Sets}
use agent_panel_x.Takeover.Fence.Rows.{
  end_attempt-find, running-active, ended_run-none, Sets-others, Sets-kept,
}

-- A run of the table does not have an identity that the table lacks.
not_new :
    (run_id k : String) (x : TakeoverRun) (runs : List TakeoverRun)
    → find (has_run_id run_id) runs ≡ none
    → find (active_of k) runs ≡ some x
    → (run_id == x.run_id) ≡ false
not_new run_id k x runs absent at_x = ground (
  arith,
  eq_iff run_id x.run_id,
  eq_iff x.run_id run_id,
  find-none-count (has_run_id run_id) runs absent,
  find-le-count (has_run_id run_id) (active_of k) runs x at_x,
)

begin_new-Sets :
    (fresh : Fresh) (triage_id : String) (trigger_event_id : ℕ) (started : Started)
    (s s' : Takeovers)
    → get_active triage_id s ≡ none
    → begin_new fresh triage_id trigger_event_id s ≡ ok (some started, s')
    → Sets triage_id (some fresh.token) s s'
begin_new-Sets fresh t n started s s' idle e =
    let (run_in, a, attempt_in, _) = begin_new-parts fresh t n (some started) s s' e in
    let new = new_run fresh.run_id t n fresh.now in
    let attempt = new_attempt fresh.attempt_id fresh.token fresh.run_id 1 fresh.now in
    let (no_run, _, _, runs_are) = insert_run-parts new s.runs s'.runs run_in in
    let ((_, _, _, _, no_active), (_, attempts_are)) =
      insert_attempt-parts _ _ _ 1 fresh.now s.attempts a _ attempt_in in
    let at_new : get_active t s' ≡ some new =
      ap (find (active_of t)) runs_are
      ∙ find-append_none (active_of t) s.runs (new ∷ []) idle
      ∙ ground (arith, eq_iff t t) in
    let its : get_active_attempt fresh.run_id s' ≡ some attempt =
      ap (find (active_attempt_of fresh.run_id)) attempts_are
      ∙ find-append_none (active_attempt_of fresh.run_id) s.attempts (attempt ∷ []) no_active
      ∙ ground (arith, eq_iff fresh.run_id fresh.run_id) in
    Sets-others s s' t (some fresh.token) (rw (at_new, its) refl)
      (λ k other.
        ap (find (active_of k)) runs_are
        ∙ find-append_last (active_of k) s.runs new (ground (arith, eq_iff t k, eq_iff k t)))
      (λ k x other at_x.
        let differs = not_new fresh.run_id k x s.runs no_run at_x in
        ap (find (active_attempt_of x.run_id)) attempts_are
        ∙ find-append_last (active_attempt_of x.run_id) s.attempts attempt
            (ground (arith, differs)))

-- A takeover that begins sets the fence of its Feature, which had none, to its fresh token, and leaves
-- that of every other Feature.
pub begin-Sets :
    (fresh : Fresh) (triage_id : String) (trigger_event_id : ℕ) (started : Started)
    (s s' : Takeovers)
    → Reachable s
    → begin fresh triage_id trigger_event_id s ≡ ok (some started, s')
    → (fence_of triage_id s ≡ none) × Sets triage_id (some fresh.token) s s'
unfolding begin
begin-Sets fresh t n started s s' reached e =
    elim (Bool-cases (is_some (get_by_trigger n s) || is_some (get_active t s))) [
      | inl handled ↦ absurd (ground (arith, handled))
      | inr is_new ↦
          (let made : begin_new fresh t n s ≡ ok (some started, s') = ground (arith, is_new) in
            let idle : get_active t s ≡ none = ground (arith, is_new) in
            (rw idle refl, begin_new-Sets fresh t n started s s' idle made))
    ]

-- A correction hands the fence of the Feature whose run it corrects from the token of the old attempt to
-- its fresh token, and leaves that of every other Feature.
pub correct-Sets :
    (fresh : Fresh) (run_id error : String) (a : TakeoverAttempt) (s s' : Takeovers)
    → Reachable s
    → correct fresh run_id error s ≡ ok (a, s')
    → (r : TakeoverRun) × (old : TakeoverAttempt) × (find (running_with_id run_id) s.runs ≡ some r)
      × (get_active_attempt run_id s ≡ some old)
      × (fence_of r.triage_id s ≡ old.fence_token)
      × Sets r.triage_id (some fresh.token) s s'
correct-Sets fresh run_id error a s s' reached e =
    let sound = reachable_takeovers-Sound s reached in
    let (old, found, _, inserted, same_runs) = correct-parts fresh run_id error a s s' e in
    let ended = end_attempt old.attempt_id invalid (some error) fresh.now s.attempts in
    let attempt = new_attempt fresh.attempt_id fresh.token run_id 2 fresh.now in
    let ((_, _, _, _, no_active), (_, attempts_are)) =
      insert_attempt-parts _ _ _ 2 fresh.now ended a _ inserted in
    elim (Option-cases (find (running_with_id run_id) s.runs)) [
      | inl nothing ↦ absurd (
          ground (
            arith,
            sound.attempt_of_run run_id,
            find-none-count (running_with_id run_id) s.runs nothing,
            find-holds (active_attempt_of run_id) s.attempts old found,
            find-le-count (active_attempt_of run_id) (active_attempt_of run_id) s.attempts old
                found,
          ))
      | inr (r, running_r) ↦
          (let (at_r, by_id, same_id) = running-active s run_id r sound running_r in
            let its : get_active_attempt run_id s' ≡ some attempt =
              ap (find (active_attempt_of run_id)) attempts_are
              ∙ find-append_none (active_attempt_of run_id) ended (attempt ∷ []) no_active
              ∙ ground (arith, eq_iff run_id run_id) in
            (
              r,
              old,
              running_r,
              found,
              rw (at_r, same_id, found) refl,
              Sets-kept s s' r (some fresh.token) sound by_id
                  (rw (same_runs, at_r, same_id, its) refl)
                  (λ k other. ap (find (active_of k)) same_runs)
                  (λ i other.
                    let differs : (i == run_id) ≡ false =
                      ap (λ (j : String). i == j) (sym same_id) ∙ other in
                    ap (find (active_attempt_of i)) attempts_are
                    ∙ find-append_last (active_attempt_of i) ended attempt
                        (ground (arith, differs, eq_iff run_id i, eq_iff i run_id))
                    ∙ end_attempt-find invalid (some error) fresh.now run_id i old s.attempts refl
                        sound.attempts_sound found differs),
            ))
    ]

-- The end of a run, which is the one with the given identity, takes the fence of its Feature away, and leaves that of every other Feature.
pub complete-Sets :
    (now : ℕ) (run_id : String) (status : TakeoverStatus) (attribution : Option ArtifactDescriptor)
    (error : Option String) (r : TakeoverRun) (s s' : Takeovers)
    → Reachable s
    → complete now run_id status attribution error s ≡ ok (r, s')
    → (r.run_id ≡ run_id) × (is_some (fence_of r.triage_id s) ≡ true) × Sets r.triage_id none s s'
unfolding end_active
complete-Sets now run_id status attribution error r s s' reached e =
    let sound = reachable_takeovers-Sound s reached in
    let (ended, updated, attempts_are) =
      complete-parts now run_id status attribution error r s s' e in
    let (old, found, made) = update_first-found _ _ s.runs s'.runs r updated in
    let (at_old, by_id, same_id) = running-active s run_id old sound found in
    let same_triage : r.triage_id ≡ old.triage_id = ap (λ (x : TakeoverRun). x.triage_id) made in
    let (a, its, held) = active_run-attempt s old.triage_id old sound at_old in
    let at_a : get_active_attempt run_id s ≡ some a =
      ap (λ (i : String). get_active_attempt i s) (sym same_id) ∙ its in
    let ended_are : s'.attempts
        ≡ end_attempt a.attempt_id (attempt_status_of status) error now s.attempts =
      attempts_are ∙ ap (λ o. end_active o status error now s.attempts) at_a in
    (
      ap (λ (x : TakeoverRun). x.run_id) made ∙ same_id,
      rw (same_triage, at_old, its) held,
      rw same_triage (
          Sets-kept s s' old none sound by_id
            (rw
              (ended_run-none now run_id status attribution error old r s s' ended sound found
                updated)
              refl)
            (λ k elsewhere.
              find-update_first (active_of k) (running_with_id run_id)
                (completed_run status attribution error now) s.runs s'.runs old r found updated
                (ground (arith, eq_iff old.triage_id k, eq_iff k old.triage_id))
                (ground (arith, ended)))
            (λ i other.
              ap (find (active_attempt_of i)) ended_are
              ∙ end_attempt-find (attempt_status_of status) error now run_id i a s.attempts
                  (attempt_status-ended status) sound.attempts_sound at_a
                  (ap (λ (j : String). i == j) (sym same_id) ∙ other))),
    )
