-- ===== src/Takeover/Reachable.antt =====
-- The tables of takeovers that the operations of the repository can reach
-- (src/agentplanex/infrastructure/sqlite/repositories/auto_takeover.py).
use mathlib.Core.Path.{subst}
use agent_panel_x.Prelude.{
  [], ℕ, String, ◌≡◌, refl, sym, inl, inr, Option, some, ◌∷◌, find-holds, arith, eq_iff,
  count-append, ok,
}
use agent_panel_x.Takeover.{
  TakeoverStatus, ArtifactDescriptor, TakeoverRun, TakeoverAttempt, invalid, Takeovers,
  running_with_id, active_attempt_of, get_active_attempt,
}
use agent_panel_x.Takeover.Operations.{
  Started, Fresh, new_attempt, new_run, begin_new, begin, end_attempt, correct, completed_run,
  complete, without_issue, record_created_issue,
}
use agent_panel_x.Table.Updates.{count-update_first}
use agent_panel_x.Table.Finding.{find-le-count}
use agent_panel_x.Takeover.Invariant.{AreRuns, AreAttempts, IsSound, one_active_attempt}
use agent_panel_x.Takeover.Parts.{
  insert_run-parts, insert_attempt-parts, begin_new-parts, begin-parts, correct-parts,
  complete-parts, record_created_issue-parts,
}
use agent_panel_x.Takeover.Statements.{
  insert_run-AreRuns, update-AreRuns, completed_runs-count, insert_attempt-AreAttempts,
  end_attempt-AreAttempts, end_attempt-count, end_active-AreAttempts, end_active-count,
}

-- The tables are reached from the empty ones by the operations that succeed.
pub data Reachable : Takeovers → Type 0 where
  start : Reachable (record { runs = []; attempts = [] })
  beginning :
      (fresh : Fresh) (triage_id : String) (trigger_event_id : ℕ) (started : Option Started)
      (s s' : Takeovers)
      → Reachable s
      → begin fresh triage_id trigger_event_id s ≡ ok (started, s')
      → Reachable s'
  correcting :
      (fresh : Fresh) (run_id error : String) (a : TakeoverAttempt) (s s' : Takeovers)
      → Reachable s
      → correct fresh run_id error s ≡ ok (a, s')
      → Reachable s'
  completing :
      (now : ℕ) (run_id : String) (status : TakeoverStatus)
      (attribution : Option ArtifactDescriptor) (error : Option String) (r : TakeoverRun)
      (s s' : Takeovers)
      → Reachable s
      → complete now run_id status attribution error s ≡ ok (r, s')
      → Reachable s'
  recording :
      (run_id : String) (number : ℕ) (url : String) (r : TakeoverRun) (s s' : Takeovers)
      → Reachable s
      → record_created_issue run_id number url s ≡ ok (r, s')
      → Reachable s'

begin_new-Sound :
    (fresh : Fresh) (triage_id : String) (trigger_event_id : ℕ) (started : Option Started)
    (s s' : Takeovers)
    → begin_new fresh triage_id trigger_event_id s ≡ ok (started, s')
    → IsSound s
    → IsSound s'
begin_new-Sound fresh t n started s s' h sound =
    let (run_in, a, attempt_in, _) = begin_new-parts fresh t n started s s' h in
    let new = new_run fresh.run_id t n fresh.now in
    let (_, _, _, runs_are) = insert_run-parts new s.runs s'.runs run_in in
    let (_, (_, attempts_are)) = insert_attempt-parts _ _ _ 1 fresh.now s.attempts a _ attempt_in in
    record {
      runs_sound = insert_run-AreRuns new s.runs s'.runs run_in (refl, refl) sound.runs_sound;
      attempts_sound =
          insert_attempt-AreAttempts _ _ _ 1 fresh.now s.attempts a _ attempt_in
            sound.attempts_sound;
      attempt_of_run = λ k.
          rw (runs_are, attempts_are)
            (ground (
              arith,
              sound.attempt_of_run k,
              count-append (running_with_id k) s.runs (new ∷ []),
              count-append (active_attempt_of k) s.attempts
                  (new_attempt fresh.attempt_id fresh.token fresh.run_id 1 fresh.now ∷ []),
            ));
    }

correct-Sound :
    (fresh : Fresh) (run_id error : String) (a : TakeoverAttempt) (s s' : Takeovers)
    → correct fresh run_id error s ≡ ok (a, s')
    → IsSound s
    → IsSound s'
correct-Sound fresh run_id error a s s' h sound =
    let (old, found, _, inserted, same_runs) = correct-parts fresh run_id error a s s' h in
    let ended = end_attempt old.attempt_id invalid (some error) fresh.now s.attempts in
    let (_, (_, attempts_are)) = insert_attempt-parts _ _ _ 2 fresh.now ended a _ inserted in
    let one = one_active_attempt s sound run_id in
    let p = active_attempt_of run_id in
    let live = find-le-count p p s.attempts old found (find-holds p s.attempts old found) in
    record {
      runs_sound = subst AreRuns (sym same_runs) sound.runs_sound;
      attempts_sound = insert_attempt-AreAttempts _ _ _ 2 fresh.now ended a _ inserted (
          end_attempt-AreAttempts old.attempt_id invalid (some error) fresh.now s.attempts refl
            sound.attempts_sound);
      attempt_of_run = λ k.
          rw (same_runs, attempts_are)
            (ground (
              arith,
              sound.attempt_of_run k,
              end_attempt-count invalid (some error) fresh.now run_id old s.attempts refl
                  sound.attempts_sound one found k,
              count-append (active_attempt_of k) ended
                  (new_attempt fresh.attempt_id fresh.token run_id 2 fresh.now ∷ []),
              live,
              eq_iff run_id k,
              eq_iff k run_id,
            ));
    }

complete-Sound :
    (now : ℕ) (run_id : String) (status : TakeoverStatus) (attribution : Option ArtifactDescriptor)
    (error : Option String) (r : TakeoverRun) (s s' : Takeovers)
    → complete now run_id status attribution error s ≡ ok (r, s')
    → IsSound s
    → IsSound s'
complete-Sound now run_id status attribution error r s s' h sound =
    let (ended, updated, attempts_are) =
      complete-parts now run_id status attribution error r s s' h in
    let one = one_active_attempt s sound run_id in
    record {
      runs_sound =
          update-AreRuns (running_with_id run_id) (completed_run status attribution error now)
            (λ x. refl) (λ x. refl) (λ x. refl) (λ x p now_running. ground (arith, ended))
            (λ x old. (refl, sym ended)) s.runs s'.runs r updated sound.runs_sound;
      attempts_sound = subst AreAttempts (sym attempts_are) (
          end_active-AreAttempts (get_active_attempt run_id s) status error now s.attempts
            sound.attempts_sound);
      attempt_of_run = λ k. rw attempts_are (
          ground (
            arith,
            sound.attempt_of_run k,
            end_active-count status error now run_id s.attempts (get_active_attempt run_id s)
                sound.attempts_sound one refl k,
            completed_runs-count now run_id status attribution error r s.runs s'.runs ended
                sound.runs_sound updated k,
          ));
    }

record_created_issue-Sound :
    (run_id : String) (number : ℕ) (url : String) (r : TakeoverRun) (s s' : Takeovers)
    → record_created_issue run_id number url s ≡ ok (r, s')
    → IsSound s
    → IsSound s'
record_created_issue-Sound run_id number url r s s' h sound =
    let (updated, same) = record_created_issue-parts run_id number url r s s' h in
    let change : TakeoverRun → TakeoverRun =
      λ x. record x { issue_number = some number; issue_url = some url } in
    record {
      runs_sound =
          update-AreRuns (without_issue run_id) change (λ x. refl) (λ x. refl) (λ x. refl)
            (λ x p now. now) (λ x old. old) s.runs s'.runs r updated sound.runs_sound;
      attempts_sound = subst AreAttempts (sym same) sound.attempts_sound;
      attempt_of_run = λ k. rw same (
          ground (
            arith,
            sound.attempt_of_run k,
            count-update_first (running_with_id k) (without_issue run_id) change (λ x p. refl)
                s.runs s'.runs r updated,
          ));
    }

-- In every pair of tables that the repository of takeovers reaches, a Feature has at most one running
-- run, an identity and a trigger are each those of at most one run, a run has a decision exactly
-- if its status is one and an end exactly if it is not running; an attempt is the first or the second
-- of its run and no two are the same, a token is that of at most one attempt and is held exactly
-- by the active ones; and a run has as many active attempts as it is running: one or none.
pub reachable_takeovers-Sound : (s : Takeovers) → Reachable s → IsSound s
reachable_takeovers-Sound s Reachable.start = record {
  runs_sound = record {
    one_running = λ t. omega arith;
    one_run = λ k. omega arith;
    one_trigger = λ k. omega arith;
    recorded = tt;
  };
  attempts_sound = record {
    one_attempt = λ k. omega arith;
    one_ordinal = λ k o. omega arith;
    one_token = λ k. omega arith;
    fenced = tt;
  };
  attempt_of_run = λ k. refl;
}
reachable_takeovers-Sound s' (Reachable.beginning fresh t n started s _ reached e) =
    elim (begin-parts fresh t n started s s' e) [
      | inl same ↦ subst IsSound (sym same) (reachable_takeovers-Sound s reached)
      | inr new ↦ begin_new-Sound fresh t n started s s' new (reachable_takeovers-Sound s reached)
    ]
reachable_takeovers-Sound s' (Reachable.correcting fresh run_id error a s _ reached e) =
    correct-Sound fresh run_id error a s s' e (reachable_takeovers-Sound s reached)
reachable_takeovers-Sound s'
      (Reachable.completing now run_id status attribution error r s _ reached e) =
    complete-Sound now run_id status attribution error r s s' e
      (reachable_takeovers-Sound s reached)
reachable_takeovers-Sound s' (Reachable.recording run_id number url r s _ reached e) =
    record_created_issue-Sound run_id number url r s s' e (reachable_takeovers-Sound s reached)
