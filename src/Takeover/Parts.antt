-- ===== src/Takeover/Parts.antt =====
-- What a call of the repository of takeovers that succeeds has done to its tables.

use agent_panel_x.Prelude.{
  [], raising, ℕ, String, ◌≡◌, ◌⊎◌, inl, inr, true, false, Option, none, some, List, ◌∷◌, ◌++◌,
  arith, Bool-cases, Option-cases, find, is_some, ok, Result-cases, ◌||◌,
}
use agent_panel_x.Takeover.{
  eq_nat, TakeoverStatus, ArtifactDescriptor, TakeoverRun, TakeoverAttempt, invalid, Takeovers,
  is_running, has_run_id, has_trigger, active_of, running_with_id, active_attempt_of,
  get_active_attempt, has_attempt_id, has_token, has_ordinal, get_by_trigger, get_active,
}
use agent_panel_x.Takeover.Operations.{
  Started, Fresh, insert_run, insert_attempt, new_attempt, new_run, begin_new, begin, end_attempt,
  correct, end_active, completed_run, complete, without_issue, record_created_issue,
}
use agent_panel_x.Table.{update_first}

pub insert_run-parts :
    (r : TakeoverRun) (runs runs' : List TakeoverRun)
    → insert_run r runs ≡ ok runs'
    → (find (has_run_id r.run_id) runs ≡ none)
      × (find (has_trigger r.trigger_event_id) runs ≡ none)
      × (is_running r.status ≡ true → find (active_of r.triage_id) runs ≡ none)
      × (runs' ≡ runs ++ r ∷ [])
unfolding raising insert_run
insert_run-parts r runs runs' h = (ground arith, ground arith, λ now. ground arith, ground arith)

pub insert_attempt-parts :
    (attempt_id token run_id : String) (ordinal now : ℕ) (attempts : List TakeoverAttempt)
    (a : TakeoverAttempt) (attempts' : List TakeoverAttempt)
    → insert_attempt attempt_id token run_id ordinal now attempts ≡ ok (a, attempts')
    → ((find (has_attempt_id attempt_id) attempts ≡ none)
        × ((ordinal ≡ 1) ⊎ (ordinal ≡ 2))
        × (find (has_token token) attempts ≡ none)
        × (find (has_ordinal run_id ordinal) attempts ≡ none)
        × (find (active_attempt_of run_id) attempts ≡ none))
      × ((a ≡ new_attempt attempt_id token run_id ordinal now)
          × (attempts' ≡ attempts ++ new_attempt attempt_id token run_id ordinal now ∷ []))
unfolding raising insert_attempt
insert_attempt-parts attempt_id token run_id ordinal now attempts a attempts' h = (
  (
    ground arith,
    elim (Bool-cases (eq_nat ordinal 1)) [
      | inl first ↦ inl (ground arith)
      | inr second ↦ inr (ground arith)
    ],
    ground arith,
    ground arith,
    ground arith,
  ),
  (ground arith, ground arith),
)

pub begin_new-parts :
    (fresh : Fresh) (triage_id : String) (trigger_event_id : ℕ) (started : Option Started)
    (s s' : Takeovers)
    → begin_new fresh triage_id trigger_event_id s ≡ ok (started, s')
    → (insert_run (new_run fresh.run_id triage_id trigger_event_id fresh.now) s.runs ≡ ok s'.runs)
      × (a : TakeoverAttempt) × (insert_attempt fresh.attempt_id fresh.token fresh.run_id 1
            fresh.now s.attempts
          ≡ ok (a, s'.attempts))
      × (started
          ≡ some (record {
            run = new_run fresh.run_id triage_id trigger_event_id fresh.now;
            attempt = a;
          }))
unfolding raising begin_new
begin_new-parts fresh t n started s s' h =
    elim (Result-cases (insert_run (new_run fresh.run_id t n fresh.now) s.runs)) [
      | inl (runs, e) ↦
          elim (Result-cases
            (insert_attempt fresh.attempt_id fresh.token fresh.run_id 1 fresh.now s.attempts)) [
              | inl ((a, attempts), i) ↦
                  (ground (arith, e, i), a, ground (arith, e, i), ground (arith, e, i))
              | inr (x, i) ↦ absurd (ground (arith, e, i))
            ]
      | inr (x, e) ↦ absurd (ground (arith, e))
    ]

-- What `begin` does: nothing where it gives `none`.
pub begin-parts :
    (fresh : Fresh) (triage_id : String) (trigger_event_id : ℕ) (started : Option Started)
    (s s' : Takeovers)
    → begin fresh triage_id trigger_event_id s ≡ ok (started, s')
    → (s' ≡ s) ⊎ (begin_new fresh triage_id trigger_event_id s ≡ ok (started, s'))
unfolding begin
begin-parts fresh t n started s s' h =
    elim (Bool-cases (is_some (get_by_trigger n s) || is_some (get_active t s))) [
      | inl handled ↦ inl (ground (arith, handled))
      | inr fresh_one ↦ inr (ground (arith, fresh_one))
    ]

pub correct-parts :
    (fresh : Fresh) (run_id error : String) (a : TakeoverAttempt) (s s' : Takeovers)
    → correct fresh run_id error s ≡ ok (a, s')
    → (old : TakeoverAttempt) × (get_active_attempt run_id s ≡ some old)
      × (old.ordinal ≡ 1)
      × (insert_attempt fresh.attempt_id fresh.token run_id 2 fresh.now
            (end_attempt old.attempt_id invalid (some error) fresh.now s.attempts)
          ≡ ok (a, s'.attempts))
      × (s'.runs ≡ s.runs)
unfolding raising correct
correct-parts fresh run_id error a s s' h = elim (Option-cases (get_active_attempt run_id s)) [
  | inl nothing ↦ absurd (ground (arith, nothing))
  | inr (old, found) ↦
      elim (Result-cases (
        insert_attempt fresh.attempt_id fresh.token run_id 2 fresh.now
          (end_attempt old.attempt_id invalid (some error) fresh.now s.attempts))) [
            | inl ((b, attempts), i) ↦ (
              old,
              found,
              ground (arith, found, i),
              ground (arith, found, i),
              ground (arith, found, i),
            )
            | inr (x, i) ↦ absurd (ground (arith, found, i))
          ]
]

pub complete-parts :
    (now : ℕ) (run_id : String) (status : TakeoverStatus) (attribution : Option ArtifactDescriptor)
    (error : Option String) (r : TakeoverRun) (s s' : Takeovers)
    → complete now run_id status attribution error s ≡ ok (r, s')
    → (is_running status ≡ false)
      × (update_first (running_with_id run_id) (completed_run status attribution error now) s.runs
          ≡ some (r, s'.runs))
      × (s'.attempts ≡ end_active (get_active_attempt run_id s) status error now s.attempts)
unfolding raising complete
complete-parts now run_id status attribution error r s s' h =
    elim (Option-cases
      (update_first (running_with_id run_id) (completed_run status attribution error now) s.runs)) [
        | inl nothing ↦ absurd (ground (arith, nothing))
        | inr ((b, runs), found) ↦
            (ground (arith, found), ground (arith, found), ground (arith, found))
      ]

pub record_created_issue-parts :
    (run_id : String) (number : ℕ) (url : String) (r : TakeoverRun) (s s' : Takeovers)
    → record_created_issue run_id number url s ≡ ok (r, s')
    → (update_first
          (without_issue run_id)
          (λ x. record x { issue_number = some number; issue_url = some url })
          s.runs
        ≡ some (r, s'.runs))
      × (s'.attempts ≡ s.attempts)
unfolding raising record_created_issue
record_created_issue-parts run_id number url r s s' h =
    elim (Option-cases (
      update_first (without_issue run_id)
        (λ x. record x { issue_number = some number; issue_url = some url }) s.runs)) [
          | inl nothing ↦ absurd (ground (arith, nothing))
          | inr ((b, runs), found) ↦ (ground (arith, found), ground (arith, found))
        ]
