-- ===== src/Runtime/Transition.antt =====
-- What a transition leaves in the store.
use agent_panel_x.Runtime.{OwnerWorkState, ProjectOwnerTask, submit_owner_input}
use agent_panel_x.Prelude.{
  [], some, String, raising, ◌≡◌, refl, ap, ◌∙◌, inl, inr, List, ◌∷◌, ◌++◌, arith, eq_iff, Result,
  ok, Result-cases,
}
use agent_panel_x.Event.{RuntimeContextChangeReason, ExecutionEvent, FieldChange}
use agent_panel_x.State.{ProjectRuntimeState}
use agent_panel_x.Runtime.Changes.{state_changes, state_changes-nil}
use agent_panel_x.Runtime.{World, updated_event, record_changes, transition}

-- The event that a change from one state to another stages: one, or none if nothing changed.
abbrev pub staged :
    RuntimeContextChangeReason → ProjectRuntimeState → List FieldChange → List ExecutionEvent
staged reason updated [] = []
staged reason updated (c ∷ cs) = updated_event reason updated (c ∷ cs) ∷ []

abbrev pub moved : RuntimeContextChangeReason → ProjectRuntimeState → World → World
moved reason updated w = record w {
  state = updated;
  timeline = w.timeline ++ staged reason updated (state_changes w.state updated);
}

append_nil : (es : List ExecutionEvent) → es ++ [] ≡ es
append_nil [] = refl
append_nil (e ∷ es) = ap (λ (t : List ExecutionEvent). e ∷ t) (append_nil es)

record_changes-cases :
    (reason : RuntimeContextChangeReason) (updated : ProjectRuntimeState) (w : World)
    (changes : List FieldChange)
    → (changes ≡ [] → w.state ≡ updated)
    → record_changes reason updated changes w
      ≡ record w { state = updated; timeline = w.timeline ++ staged reason updated changes }
unfolding raising record_changes
record_changes-cases reason updated w [] same = rw (append_nil w.timeline, ← same refl)
record_changes-cases reason updated w (c ∷ cs) same = refl

-- A transition that succeeds gives the state that its mutation gives, for the same Feature.
pub transition-moved :
    (reason : RuntimeContextChangeReason)
    (mutate : ProjectRuntimeState → Result ProjectRuntimeState) (w : World)
    (updated : ProjectRuntimeState) (w' : World)
    → transition reason mutate w ≡ ok (updated, w')
    → (mutate w.state ≡ ok updated)
      × (updated.triage_id ≡ w.state.triage_id)
      × (w' ≡ moved reason updated w)
unfolding raising transition
transition-moved reason mutate w updated w' h = elim (Result-cases (mutate w.state)) [
  | inl (u, m) ↦
      (let e : u ≡ updated = ground (arith, m) in
        let t : updated.triage_id ≡ w.state.triage_id =
          ground (arith, m, eq_iff u.triage_id w.state.triage_id) in
        let r : w' ≡ record_changes reason updated (state_changes w.state updated) w =
          ground (arith, m) in
        (
          m ∙ ap ok e,
          t,
          r
              ∙ record_changes-cases reason updated w (state_changes w.state updated)
                  (state_changes-nil w.state updated),
        ))
  | inr (x, m) ↦ absurd (ground arith)
]

-- An Owner input that is accepted found the mailbox idle, and is work for the Owner afterwards.
pub submit_owner_input-at :
    (task : ProjectOwnerTask) (message_id : String) (w w' : World)
    → submit_owner_input task message_id w ≡ ok w'
    → (w.owner_work ≡ OwnerWorkState.idle)
      × (w' ≡ record w {
        owner_work = OwnerWorkState.runnable;
        owner_inputs = w.owner_inputs ++ task ∷ [];
        owner_message_id = some message_id;
      })
unfolding raising submit_owner_input
submit_owner_input-at task message_id w w' h = (ground arith, ground arith)
