-- ===== src/Takeover/Statements.antt =====
-- What the statements of the repository of takeovers keep of the invariant, and what they do to the
-- counts of running runs and active attempts.
use mathlib.Core.Path.{subst}
use agent_panel_x.Prelude.{
  [], ℕ, ◌≤◌, le_trans, String, ◌≡◌, refl, sym, inl, inr, Bool, true, false, Option, none, some,
  List, ◌∷◌, ◌==◌, if◌then◌else◌, find-holds, arith, eq_iff, Bool-cases, find, count, count-append,
  All-append, ok,
}
use agent_panel_x.Takeover.{
  AttemptStatus, TakeoverStatus, running, ArtifactDescriptor, TakeoverRun, TakeoverAttempt,
  is_running, is_active, has_run_id, has_trigger, active_of, running_with_id, active_attempt_of,
  has_attempt_id, has_token, has_ordinal,
}
use agent_panel_x.Takeover.Operations.{
  insert_run, insert_attempt, new_attempt, ending_attempt, ended_attempt, end_attempt,
  attempt_status_of, end_active, completed_run,
}
use agent_panel_x.Table.{update_first}
use agent_panel_x.Table.Updates.{
  find-none-count, count-narrow, update_first-count, count-update_first, update_first-found,
  count-amend_le, count-amend,
}
use agent_panel_x.Table.Finding.{find-only, update_first-drops}
use agent_panel_x.Table.Amending.{amend-drops, count-amend_key, All-amended, All-updated}
use agent_panel_x.Takeover.Invariant.{Recorded, Fenced, AreRuns, AreAttempts}
use agent_panel_x.Takeover.Parts.{insert_run-parts, insert_attempt-parts}

-- A new run that is recorded keeps the table of runs sound.
pub insert_run-AreRuns :
    (r : TakeoverRun) (runs runs' : List TakeoverRun)
    → insert_run r runs ≡ ok runs'
    → Recorded r
    → AreRuns runs
    → AreRuns runs'
insert_run-AreRuns r runs runs' e recorded sound =
    let (no_id, no_trigger, no_active, same) = insert_run-parts r runs runs' e in
    subst AreRuns (sym same) (record {
      one_running = λ t. ground (
        arith,
        sound.one_running t,
        count-append (active_of t) runs (r ∷ []),
        no_active,
        find-none-count (active_of t) runs,
        eq_iff r.triage_id t,
      );
      one_run = λ k. ground (
        arith,
        sound.one_run k,
        count-append (has_run_id k) runs (r ∷ []),
        find-none-count (has_run_id r.run_id) runs no_id,
        eq_iff r.run_id k,
      );
      one_trigger = λ k. ground (
        arith,
        sound.one_trigger k,
        count-append (has_trigger k) runs (r ∷ []),
        find-none-count (has_trigger r.trigger_event_id) runs no_trigger,
      );
      recorded = All-append Recorded runs (r ∷ []) sound.recorded (recorded, tt);
    })

-- An update of a run that keeps its identity, its Feature and its trigger and starts no finished run.
pub update-AreRuns :
    (picks : TakeoverRun → Bool) (change : TakeoverRun → TakeoverRun)
    → ((r : TakeoverRun) → (change r).run_id ≡ r.run_id)
    → ((r : TakeoverRun) → (change r).triage_id ≡ r.triage_id)
    → ((r : TakeoverRun) → (change r).trigger_event_id ≡ r.trigger_event_id)
    → ((r : TakeoverRun)
        → picks r ≡ true
        → is_running (change r).status ≡ true
        → is_running r.status ≡ true)
    → ((r : TakeoverRun) → Recorded r → Recorded (change r))
    → (runs runs' : List TakeoverRun) (r : TakeoverRun)
    → update_first picks change runs ≡ some (r, runs')
    → AreRuns runs
    → AreRuns runs'
update-AreRuns picks change same_id same_triage same_trigger started keep runs runs' r e sound =
    record {
      one_running = λ t.
          le_trans
            (update_first-count (active_of t) picks change
              (λ x picked now. ground (arith, same_triage x, started x)) runs runs' r e)
            (sound.one_running t);
      one_run = λ k.
          subst (λ (n : ℕ). n ≤ 1)
            (sym (
              count-update_first (has_run_id k) picks change (λ x picked. rw (same_id x)) runs runs'
                r e))
            (sound.one_run k);
      one_trigger = λ k.
          subst (λ (n : ℕ). n ≤ 1)
            (sym (
              count-update_first (has_trigger k) picks change (λ x picked. rw (same_trigger x)) runs
                runs' r e))
            (sound.one_trigger k);
      recorded = All-updated Recorded picks change keep runs runs' r e sound.recorded;
    }

pub completed_runs-count :
    (now : ℕ) (run_id : String) (status : TakeoverStatus) (attribution : Option ArtifactDescriptor)
    (error : Option String) (r : TakeoverRun) (runs runs' : List TakeoverRun)
    → is_running status ≡ false
    → AreRuns runs
    → update_first (running_with_id run_id) (completed_run status attribution error now) runs
      ≡ some (r, runs')
    → (k : String)
    → count (running_with_id k) runs' ≡ (if k == run_id then 0 else count (running_with_id k) runs)
completed_runs-count now run_id status attribution error r runs runs' ended sound e k =
    let picks = running_with_id run_id in
    let change = completed_run status attribution error now in
    let (old, found, made) = update_first-found picks change runs runs' r e in
    let here = find-holds picks runs old found in
    let one : count picks runs ≤ 1 = ground (
      arith,
      sound.one_run run_id,
      count-narrow (has_run_id run_id) picks runs (λ x h. ground arith),
    ) in
    let gone : picks r ≡ false = ground (arith, made) in
    elim (Bool-cases (k == run_id)) [
      | inl same ↦
          (let is_run : k ≡ run_id = ground (arith, eq_iff k run_id) in
            rw (same, is_run)
              (update_first-drops picks picks change runs runs' old r e found one here gone))
      | inr other ↦ rw other (
          count-update_first (running_with_id k) picks change
            (λ x p. ground (arith, eq_iff x.run_id run_id, eq_iff x.run_id k, eq_iff k run_id)) runs
            runs' r e)
    ]

pub insert_attempt-AreAttempts :
    (attempt_id token run_id : String) (ordinal now : ℕ) (attempts : List TakeoverAttempt)
    (a : TakeoverAttempt) (attempts' : List TakeoverAttempt)
    → insert_attempt attempt_id token run_id ordinal now attempts ≡ ok (a, attempts')
    → AreAttempts attempts
    → AreAttempts attempts'
insert_attempt-AreAttempts attempt_id token run_id ordinal now attempts a attempts' e sound =
    let ((no_id, first_two, no_token, no_ordinal, _), (_, same)) =
      insert_attempt-parts attempt_id token run_id ordinal now attempts a attempts' e in
    let new = new_attempt attempt_id token run_id ordinal now in
    subst AreAttempts (sym same) (record {
      one_attempt = λ k. ground (
        arith,
        sound.one_attempt k,
        count-append (has_attempt_id k) attempts (new ∷ []),
        find-none-count (has_attempt_id attempt_id) attempts no_id,
        eq_iff attempt_id k,
      );
      one_ordinal = λ k o. ground (
        arith,
        sound.one_ordinal k o,
        count-append (has_ordinal k o) attempts (new ∷ []),
        find-none-count (has_ordinal run_id ordinal) attempts no_ordinal,
        eq_iff run_id k,
      );
      one_token = λ k. ground (
        arith,
        sound.one_token k,
        count-append (has_token k) attempts (new ∷ []),
        find-none-count (has_token token) attempts no_token,
        eq_iff token k,
      );
      fenced = All-append Fenced attempts (new ∷ []) sound.fenced ((first_two, refl), tt);
    })

-- The end of an attempt drops its token.
pub end_attempt-AreAttempts :
    (attempt_id : String) (status : AttemptStatus) (error : Option String) (now : ℕ)
    (attempts : List TakeoverAttempt)
    → is_active status ≡ false
    → AreAttempts attempts
    → AreAttempts (end_attempt attempt_id status error now attempts)
unfolding end_attempt
end_attempt-AreAttempts attempt_id status error now attempts ended sound =
    let picks = ending_attempt attempt_id in
    let change = ended_attempt status error now in
    record {
      one_attempt = λ k.
          subst (λ (n : ℕ). n ≤ 1)
            (sym (count-amend (has_attempt_id k) picks change (λ x p. refl) attempts))
            (sound.one_attempt k);
      one_ordinal = λ k o.
          subst (λ (n : ℕ). n ≤ 1)
            (sym (count-amend (has_ordinal k o) picks change (λ x p. refl) attempts))
            (sound.one_ordinal k o);
      one_token = λ k.
          le_trans (count-amend_le (has_token k) picks change (λ x p h. cc) attempts)
            (sound.one_token k);
      fenced = All-amended Fenced picks change (λ x h. (h.0, sym ended)) attempts sound.fenced;
    }

-- The end of the active attempt of a run leaves it none, and all others as they were.
pub end_attempt-count :
    (status : AttemptStatus) (error : Option String) (now : ℕ) (run_id : String)
    (a : TakeoverAttempt) (attempts : List TakeoverAttempt)
    → is_active status ≡ false
    → AreAttempts attempts
    → count (active_attempt_of run_id) attempts ≤ 1
    → find (active_attempt_of run_id) attempts ≡ some a
    → (k : String)
    → count (active_attempt_of k) (end_attempt a.attempt_id status error now attempts)
      ≡ (if k == run_id then 0 else count (active_attempt_of k) attempts)
unfolding end_attempt
end_attempt-count status error now run_id a attempts ended sound one e k =
    let here = find-holds (active_attempt_of run_id) attempts a e in
    let picks = ending_attempt a.attempt_id in
    let change = ended_attempt status error now in
    let picked : picks a ≡ true = ground (arith, here, eq_iff a.attempt_id a.attempt_id) in
    let at_key =
      find-only (has_attempt_id a.attempt_id) (active_attempt_of run_id) attempts a
        (sound.one_attempt a.attempt_id) e (ground (arith, eq_iff a.attempt_id a.attempt_id)) in
    elim (Bool-cases (k == run_id)) [
      | inl same ↦
          (let dropped =
              amend-drops (active_attempt_of run_id) picks change (λ x p. ground arith) attempts a
                one e picked in
            let is_run : k ≡ run_id = ground (arith, eq_iff k run_id) in rw (same, is_run) dropped)
      | inr other ↦
          (let elsewhere : active_attempt_of k a ≡ false =
              ground (arith, here, eq_iff a.run_id k, eq_iff k run_id, eq_iff a.run_id run_id) in
            rw other (
              count-amend_key (active_attempt_of k) (has_attempt_id a.attempt_id) picks change
                (λ x p. ground arith) attempts a (sound.one_attempt a.attempt_id) at_key
                (ground (arith, elsewhere))))
    ]

pub attempt_status-ended : (status : TakeoverStatus) → is_active (attempt_status_of status) ≡ false
attempt_status-ended running = refl
attempt_status-ended TakeoverStatus.takeover_yes = refl
attempt_status-ended TakeoverStatus.takeover_no = refl
attempt_status-ended TakeoverStatus.failed = refl

-- The attempts after a run has ended: none of its own is active, and the others are as they were.
pub end_active-AreAttempts :
    (o : Option TakeoverAttempt) (status : TakeoverStatus) (error : Option String) (now : ℕ)
    (attempts : List TakeoverAttempt)
    → AreAttempts attempts
    → AreAttempts (end_active o status error now attempts)
unfolding end_active
end_active-AreAttempts none status error now attempts sound = sound
end_active-AreAttempts (some a) status error now attempts sound =
    end_attempt-AreAttempts a.attempt_id (attempt_status_of status) error now attempts
      (attempt_status-ended status) sound

pub end_active-count :
    (status : TakeoverStatus) (error : Option String) (now : ℕ) (run_id : String)
    (attempts : List TakeoverAttempt) (o : Option TakeoverAttempt)
    → AreAttempts attempts
    → count (active_attempt_of run_id) attempts ≤ 1
    → find (active_attempt_of run_id) attempts ≡ o
    → (k : String)
    → count (active_attempt_of k) (end_active o status error now attempts)
      ≡ (if k == run_id then 0 else count (active_attempt_of k) attempts)
unfolding end_active
end_active-count status error now run_id attempts none sound one e k =
    ground (arith, find-none-count (active_attempt_of run_id) attempts e, eq_iff k run_id)
end_active-count status error now run_id attempts (some a) sound one e k =
    end_attempt-count (attempt_status_of status) error now run_id a attempts
      (attempt_status-ended status) sound one e k
