-- ===== src/Owner/Context/View.antt =====
-- The submission of an input to the table (`ProjectRuntimeTransaction.submit_owner_input` of context.py)
-- beside the one that Delivery and Planning are modelled with.
use mathlib.Core.Path.{subst}
use agent_panel_x.Prelude.{
  [], ℕ, String, ◌≡◌, refl, ap, ◌∙◌, sym, inl, inr, some, List, ◌∷◌, ◌++◌, arith, Bool-cases,
  raising, Error, ok, err, Result-cases,
}
use agent_panel_x.Runtime
use agent_panel_x.Runtime.{OwnerWorkState, idle, runnable, is_idle, ProjectOwnerTask}
use agent_panel_x.Owner.{OwnerActivation}
use agent_panel_x.Owner.Activations.Reachable.{Reachable}
use agent_panel_x.Owner.Lifecycle.{submit_input, work_state}
use agent_panel_x.Owner.Lifecycle.Moves.{Operation, Move}
use agent_panel_x.Owner.Lifecycle.Refinement.{Operates, operates-Move}
use agent_panel_x.Owner.Context.{OwnerStore, view, task_type, submit_owner_input, message_appended}

accepted : {s s' : OwnerWorkState} → Move Operation.submitting s s' → (s ≡ idle) × (s' ≡ runnable)
accepted Move.accept = (refl, refl)

-- What an accepted input leaves.
submit_owner_input-parts :
    (content_of : ProjectOwnerTask → String) (task : ProjectOwnerTask) (m id : String) (now : ℕ)
    (s s' : OwnerStore) (a : OwnerActivation)
    → submit_owner_input content_of task m id now s ≡ ok (a, s')
    → (rows : List OwnerActivation) × (submit_input id now s.world.state.triage_id
          (task_type task)
          m
          s.summary_id
          s.activations
        ≡ ok (a, rows))
      × (s' ≡ record s {
        world = record s.world {
          owner_inputs = s.world.owner_inputs ++ task ∷ [];
          owner_message_id = some m;
        };
        activations = rows;
        conversation = s.conversation ++ message_appended m (some a) ∷ [];
      })
unfolding raising submit_owner_input
submit_owner_input-parts content_of task m id now s s' a h =
    elim (Result-cases
      (submit_input id now s.world.state.triage_id (task_type task) m s.summary_id s.activations)) [
        | inl ((b, rows), e) ↦
            (let same : b ≡ a = ground (arith, e) in
              (rows, e ∙ ap (λ (x : OwnerActivation). ok (x, rows)) same, ground (arith, e)))
        | inr (x, e) ↦ absurd (ground (arith, e))
      ]

-- On a table that the repository reaches, an input that the Context accepts is one that the abstract
-- mailbox accepts: the view of the store afterwards is what the abstract operation makes of the view
-- before, and the table is still one that the repository reaches.
pub submit_owner_input-refines :
    (content_of : ProjectOwnerTask → String) (task : ProjectOwnerTask) (m id : String) (now : ℕ)
    (s s' : OwnerStore) (a : OwnerActivation)
    → Reachable s.activations
    → submit_owner_input content_of task m id now s ≡ ok (a, s')
    → (Runtime.submit_owner_input task m (view s) ≡ ok (view s')) × Reachable s'.activations
unfolding raising Runtime.submit_owner_input
submit_owner_input-refines content_of task m id now s s' a reached h =
    let (rows, e, same) = submit_owner_input-parts content_of task m id now s s' a h in
    let t = s.world.state.triage_id in
    let (move, reached') =
      operates-Move t s.activations rows Operation.submitting reached
        (Operates.submits id now (task_type task) m s.summary_id a rows e) in
    let (before, after) = accepted move in
    (rw (before, same, after) refl, subst Reachable (sym (ap OwnerStore.activations same)) reached')

-- A mailbox that is not idle refuses an input with the same error in both.
pub submit_owner_input-busy :
    (content_of : ProjectOwnerTask → String) (task : ProjectOwnerTask) (m id : String) (now : ℕ)
    (s : OwnerStore) (e : Error)
    → Runtime.submit_owner_input task m (view s) ≡ err e
    → submit_owner_input content_of task m id now s ≡ err e
unfolding raising submit_owner_input Runtime.submit_owner_input
submit_owner_input-busy content_of task m id now s e h =
    elim (Bool-cases (is_idle (work_state s.world.state.triage_id s.activations))) [
      | inl free ↦ absurd (ground (arith, free))
      | inr taken ↦ ground (arith, taken)
    ]
