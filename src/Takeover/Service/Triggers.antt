-- ===== src/Takeover/Service/Triggers.antt =====
-- What starts a takeover: the transition that blocks a project, of whichever operation.

use agent_panel_x.Prelude.{
  [], ℕ, suc, ◌+◌, ◌≤◌, ◌≡◌, refl, ap, ◌∙◌, inl, inr, Bool, true, false, ◌&&◌, some, List, ◌∷◌,
  ◌++◌, ◌==◌, ltb, arith, eq_iff, Bool-cases, Option-cases, length, last?, filter, filter-append,
  last?-snoc, last?-cons, find, Result, ok,
}
use agent_panel_x.Event.{RuntimeContextChangeReason, ExecutionEvent, FieldChange}
use agent_panel_x.State.{in_progress, blocked, ProjectRuntimeState}
use agent_panel_x.Runtime.{World, updated_event, transition}
use agent_panel_x.Runtime.Changes.{status_value, state_changes}
use agent_panel_x.Runtime.Changes.Found.{find-state_changes}
use agent_panel_x.Runtime.Transition.{transition-moved, staged}
use agent_panel_x.Takeover.Service.{
  numbered, events_of, last_id, event_watermark, is_blocked_transition, blocks, changes_block,
  is_text, is_context_update, state_of, still_blocked, new_blocked_event,
}

-- The rows of a longer Timeline.
numbered-append :
    (n m : ℕ) (es : List ExecutionEvent) (e : ExecutionEvent)
    → n + length es ≡ m
    → numbered n (es ++ e ∷ []) ≡ numbered n es ++ (m, e) ∷ []
unfolding numbered
numbered-append n m [] e h = ap (λ (k : ℕ). (k, e) ∷ []) (omega arith)
numbered-append n m (x ∷ es) e h = rw (numbered-append (suc n) m es e (omega arith)) refl

-- No identity lies beyond the length of the Timeline.
numbered-last :
    (n : ℕ) (p : ℕ × ExecutionEvent → Bool) (es : List ExecutionEvent)
    → last_id (last? (filter p (numbered (suc n) es))) ≤ n + length es
unfolding numbered last_id
numbered-last n p [] = omega arith
numbered-last n p (x ∷ es) =
    let tail = filter p (numbered (suc (suc n)) es) in
    let later = numbered-last (suc n) p es in
    elim (Bool-cases (p (suc n, x))) [
      | inl kept ↦ elim (Option-cases (last? tail)) [
        | inl nothing ↦ rw (kept, last?-cons (suc n, x) tail, nothing) (omega arith)
        | inr (row, found) ↦
            rw (kept, last?-cons (suc n, x) tail, found) (ground (arith, later, found))
      ]
      | inr dropped ↦ rw dropped (ground (arith, later))
    ]

filter-snoc {ℓ} :
    {A : Type ℓ} (p : A → Bool) (xs : List A) (a : A)
    → p a ≡ true
    → filter p (xs ++ a ∷ []) ≡ filter p xs ++ a ∷ []
filter-snoc p xs a h = filter-append p xs (a ∷ []) ∙ rw h refl

staged-some :
    (reason : RuntimeContextChangeReason) (updated : ProjectRuntimeState)
    (changes : List FieldChange) (p : FieldChange → Bool) (c : FieldChange)
    → find p changes ≡ some c
    → staged reason updated changes ≡ updated_event reason updated changes ∷ []
staged-some reason updated [] p c h = absurd (ground arith)
staged-some reason updated (x ∷ xs) p c h = refl

-- The event of a transition that takes a project from IN_PROGRESS to BLOCKED.
blocking_event-is :
    (reason : RuntimeContextChangeReason) (current updated : ProjectRuntimeState)
    → current.status ≡ in_progress
    → updated.status ≡ blocked
    → is_blocked_transition (updated_event reason updated (state_changes current updated)) ≡ true
unfolding is_blocked_transition is_context_update changes_block blocks is_text
blocking_event-is reason current updated was is =
    let differs : (status_value current.status == status_value updated.status) ≡ false =
      rw (was, is) refl in
    rw (find-state_changes current updated differs, was, is) refl

-- Where a transition takes a project from IN_PROGRESS to BLOCKED, whatever its reason and its other changes,
-- it is the event that the release of the drive sees: the newest one after the mark that was taken
-- before the transition.
pub transition-triggers :
    (reason : RuntimeContextChangeReason)
    (mutate : ProjectRuntimeState → Result ProjectRuntimeState) (w w' : World)
    (updated : ProjectRuntimeState)
    → transition reason mutate w ≡ ok (updated, w')
    → w.state.status ≡ in_progress
    → updated.status ≡ blocked
    → new_blocked_event w.state.triage_id (event_watermark w.state.triage_id w) w'
      ≡ some (suc (length w.timeline), updated_event reason updated (state_changes w.state updated))
unfolding new_blocked_event event_watermark events_of state_of still_blocked last_id
transition-triggers reason mutate w w' updated e was is =
    let (_, same_triage, is_moved) = transition-moved reason mutate w updated w' e in
    let t = w.state.triage_id in
    let event = updated_event reason updated (state_changes w.state updated) in
    let mark = event_watermark t w in
    let own : ℕ × ExecutionEvent → Bool = λ row. row.1.triage_id == t in
    let newer : ℕ × ExecutionEvent → Bool = λ row. ltb mark row.0 && is_blocked_transition row.1 in
    let row : ℕ × ExecutionEvent = (suc (length w.timeline), event) in
    let differs : (status_value w.state.status == status_value updated.status) ≡ false =
      rw (was, is) refl in
    let timeline_is : w'.timeline ≡ w.timeline ++ event ∷ [] =
      ap (λ (v : World). v.timeline) is_moved
      ∙ ap (λ es. w.timeline ++ es)
          (staged-some reason updated (state_changes w.state updated) _ _
            (find-state_changes w.state updated differs)) in
    let at_home : (updated.triage_id == t) ≡ true =
      ground (arith, eq_iff updated.triage_id t, same_triage) in
    let blocking = blocking_event-is reason w.state updated was is in
    let is_new : newer row ≡ true = ground (arith, blocking, numbered-last 0 own w.timeline) in
    let rows_are : filter own (numbered 1 w'.timeline)
        ≡ filter own (numbered 1 w.timeline) ++ row ∷ [] =
      ap (λ es. filter own (numbered 1 es)) timeline_is
      ∙ ap (filter own) (numbered-append 1 (suc (length w.timeline)) w.timeline event (omega arith))
      ∙ filter-snoc own (numbered 1 w.timeline) row at_home in
    let state_is : w'.state ≡ updated = ap (λ (v : World). v.state) is_moved in
    let guard : still_blocked (state_of t w') ≡ true = rw (state_is, at_home, is) refl in
    rw (guard, rows_are, filter-snoc newer (filter own (numbered 1 w.timeline)) row is_new)
      (last?-snoc own (filter newer (filter own (numbered 1 w.timeline))) row)
