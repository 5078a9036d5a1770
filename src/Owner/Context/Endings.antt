-- ===== src/Owner/Context/Endings.antt =====
-- The end of an activation in a transaction (`_finish_owner_in_transaction` of
-- src/agentplanex/services/project_runtime_context/context.py).

use agent_panel_x.Prelude.{
  ℕ, ◌≡◌, refl, ap, ◌∙◌, inl, inr, Bool, true, false, some, List, arith, Bool-cases, find,
  find-holds, raising, if◌then◌else◌, Result, ok, Option-cases, eq_iff,
}
use agent_panel_x.State.{blocked, ProjectRuntimeState, is_blocked, is_done, post_init}
use agent_panel_x.Event.{RuntimeContextChangeReason, ExecutionEvent}
use agent_panel_x.Runtime.{OwnerWorkState, idle, World, transition, publish, record_changes}
use agent_panel_x.Runtime.Changes.{state_changes}
use agent_panel_x.Runtime.Transition.{moved, transition-moved}
use agent_panel_x.Table.Checked.{Passes, find-All}
use agent_panel_x.Owner.{
  OwnerActivationMode, OwnerActivation, is_failed, is_interrupted, is_running, check_activation,
}
use agent_panel_x.Owner.Activations.{running_with_id, finished, is_interrupt_requested}
use agent_panel_x.Owner.Activations.Reachable.{Reachable, reachable_activations-Sound}
use agent_panel_x.Owner.Lifecycle.{AgentExit, work_state, finish}
use agent_panel_x.Owner.Lifecycle.Moves.{Operation, Move, ending, ending_failure}
use agent_panel_x.Owner.Lifecycle.Refinement.{Operates, operates-Move}
use agent_panel_x.Owner.Lifecycle.Finishing.{finish-ends}
use agent_panel_x.Owner.Context.{
  OwnerStore, block_after_owner_failure, block_if, exited_event, user_interrupted_event, announced,
  note_interruption, stage_activation, stage_event, finish_owner_in_transaction,
  user_interrupted_with, exited_with,
}

finishing-free : {s s' : OwnerWorkState} → Move Operation.finishing s s' → s' ≡ idle
finishing-free Move.end = refl

-- The state after a failed activation: BLOCKED, but for a project that is DONE.
abbrev pub blocked_by_failure : Bool → ProjectRuntimeState → ProjectRuntimeState
blocked_by_failure false state = state
blocked_by_failure true state =
    if is_blocked state.status
    then state
    else if is_done state.status
    then state
    else record state { status = blocked }

block_after_owner_failure-total :
    (state : ProjectRuntimeState)
    → post_init state ≡ ok state
    → block_after_owner_failure state ≡ ok (blocked_by_failure true state)
unfolding raising block_after_owner_failure post_init
block_after_owner_failure-total state valid = ground arith

blocked_by_failure-same :
    (fails : Bool) (state : ProjectRuntimeState)
    → (blocked_by_failure fails state).triage_id ≡ state.triage_id
blocked_by_failure-same false state = refl
blocked_by_failure-same true state = ground arith

transition-total :
    (reason : RuntimeContextChangeReason)
    (mutate : ProjectRuntimeState → Result ProjectRuntimeState) (w : World)
    (updated : ProjectRuntimeState)
    → mutate w.state ≡ ok updated
    → updated.triage_id ≡ w.state.triage_id
    → (w' : World) × (transition reason mutate w ≡ ok (updated, w')) × (w' ≡ moved reason updated w)
unfolding raising transition
transition-total reason mutate w updated m same =
    let w' = record_changes reason updated (state_changes w.state updated) w in
    let runs : transition reason mutate w ≡ ok (updated, w') =
      ground (arith, m, eq_iff updated.triage_id w.state.triage_id) in
    let (_, _, at) = transition-moved reason mutate w updated w' runs in (w', runs, at)

-- The transaction blocks the project after a failed activation, and touches nothing but the state and
-- the Timeline.
block_if-total :
    (fails : Bool) (s : OwnerStore)
    → post_init s.world.state ≡ ok s.world.state
    → (w : World) × (block_if fails s ≡ ok (record s { world = w }))
      × (w.state ≡ blocked_by_failure fails s.world.state)
unfolding raising block_if
block_if-total false s valid = (s.world, refl, refl)
block_if-total true s valid =
    let (w, e, at) =
      transition-total RuntimeContextChangeReason.owner_activation_failed block_after_owner_failure
        s.world (blocked_by_failure true s.world.state)
        (block_after_owner_failure-total s.world.state valid)
        (blocked_by_failure-same true s.world.state) in
    (w, rw e refl, ap World.state at)

-- The events of an end, which only want the driver mode that a checked activation has.
note_interruption-total :
    (a : OwnerActivation) (driver : OwnerActivationMode) (s : OwnerStore)
    → a.driver_mode ≡ some driver
    → (w : World) × (note_interruption (is_interrupted a.status) a s ≡ ok (record s { world = w }))
      × (w.state ≡ s.world.state)
unfolding raising note_interruption user_interrupted_event publish
note_interruption-total a driver s e = elim (Bool-cases (is_interrupted a.status)) [
  | inl stops ↦ (publish (user_interrupted_with a driver) s.world, ground (arith, e, stops), refl)
  | inr other ↦ (s.world, ground (arith, other), refl)
]

running-driver :
    (a : OwnerActivation)
    → is_running a.status ≡ true
    → Passes check_activation a
    → (driver : OwnerActivationMode) × (a.driver_mode ≡ some driver)
unfolding raising check_activation
running-driver a runs valid = elim (Option-cases a.driver_mode) [
  | inl nothing ↦ absurd (ground arith)
  | inr found ↦ found
]

finish_owner-runs :
    (activation : OwnerActivation) (result : AgentExit) (now : ℕ) (s : OwnerStore)
    (a : OwnerActivation) (rows' : List OwnerActivation) (event : ExecutionEvent) (m n : OwnerStore)
    → finish activation result now s.activations ≡ ok (a, rows')
    → block_if (is_failed a.status) (record s { activations = rows' }) ≡ ok m
    → exited_event a (announced a result) false ≡ ok event
    → note_interruption (is_interrupted a.status) a (stage_event event (stage_activation a m))
      ≡ ok n
    → finish_owner_in_transaction activation result now s ≡ ok (a, n)
unfolding raising finish_owner_in_transaction
finish_owner-runs activation result now s a rows' event m n e1 e2 e3 e4 = rw (e1, e2, e3, e4) refl

exited_event-total :
    (a : OwnerActivation) (result : AgentExit) (interrupted : Bool) (driver : OwnerActivationMode)
    → a.driver_mode ≡ some driver
    → exited_event a result interrupted ≡ ok (exited_with a result interrupted driver)
unfolding raising exited_event
exited_event-total a result interrupted driver e = rw e refl

-- How an activation has ended: its row, the mailbox and the state.
pub record Ended (activation old : OwnerActivation) (result : AgentExit) (now : ℕ) (s : OwnerStore)
    (a : OwnerActivation) (s' : OwnerStore) : Type 0 where
  pub row :
      a
      ≡ finished
          (ending result (is_interrupt_requested activation.activation_id s.activations))
          now
          (ending_failure result)
          old
  pub free : work_state s.world.state.triage_id s'.activations ≡ idle
  pub state : s'.world.state ≡ blocked_by_failure (is_failed a.status) s.world.state
  pub reached : Reachable s'.activations

-- Where an activation of the Feature runs, on a table that the repository reaches and in a state that
-- passes its checks, its end succeeds with every exit of the Owner: its row is FAILED, INTERRUPTED or
-- COMPLETED by the exit and the interrupt request; the mailbox is idle; and a failure blocks a project
-- that is not DONE, while the other ends leave its state alone.
pub finish_owner-Ended :
    (activation old : OwnerActivation) (result : AgentExit) (now : ℕ) (s : OwnerStore)
    → Reachable s.activations
    → find (running_with_id activation.activation_id) s.activations ≡ some old
    → old.triage_id ≡ s.world.state.triage_id
    → post_init s.world.state ≡ ok s.world.state
    → (a : OwnerActivation) × (s' : OwnerStore) × (finish_owner_in_transaction activation result now
          s
        ≡ ok (a, s'))
      × Ended activation old result now s a s'
unfolding publish stage_event stage_activation
finish_owner-Ended activation old result now s reached found home valid =
    let rows = s.activations in
    let fits : running_with_id activation.activation_id old ≡ true = find-holds _ rows old found in
    let checked_old =
      find-All (Passes check_activation) _ rows old (reachable_activations-Sound rows reached).valid
        found in
    let (driver, has_driver) = running-driver old (ground arith) checked_old in
    let a =
      finished (ending result (is_interrupt_requested activation.activation_id rows)) now
        (ending_failure result) old in
    let (rows', ends) = finish-ends activation old result now rows reached found in
    let (w, blocks, at) =
      block_if-total (is_failed a.status) (record s { activations = rows' }) valid in
    let left =
      stage_event (exited_with a (announced a result) false driver)
        (stage_activation a (record s { world = w; activations = rows' })) in
    let (w', notes, same) = note_interruption-total a driver left has_driver in
    let (move, reached') =
      operates-Move s.world.state.triage_id rows rows' Operation.finishing reached
        (Operates.finishes activation result now a rows' ends home) in
    (
      a,
      record left { world = w' },
      finish_owner-runs activation result now s a rows' _ _ _ ends blocks
          (exited_event-total a (announced a result) false driver has_driver) notes,
      record { row = refl; free = finishing-free move; state = same ∙ at; reached = reached' },
    )
