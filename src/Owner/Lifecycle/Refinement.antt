-- ===== src/Owner/Lifecycle/Refinement.antt =====
-- The operations of the lifecycle (_activation.py) beside the moves of the abstract mailbox.
use mathlib.Core.Path.{subst}
use agent_panel_x.Prelude.{
  raising, ◌==◌, ℕ, String, ◌≡◌, refl, ap, ◌∙◌, sym, inl, inr, Bool, true, false, Option, none,
  some, List, arith, eq_iff, Bool-cases, find, find-holds, is_none, ok,
}
use agent_panel_x.Table.{update_first}
use agent_panel_x.Table.Updates.{update_first-found, count-zero-find, amend-clears}
use agent_panel_x.Table.Finding.{find-only, find-place, update_first-only, update_first-drops}
use agent_panel_x.Table.Checked.{checked-some, checked-raised}
use agent_panel_x.Runtime.{OwnerWorkState, idle, runnable, running, waiting_for_control}
use agent_panel_x.Owner.{
  ProjectOwnerTaskType, OwnerActivationMode, model, tool, OwnerActivation, check_activation,
}
use agent_panel_x.Owner.Checks.{check_activation-identity}
use agent_panel_x.Owner.Activations
use agent_panel_x.Owner.Activations.{
  row_before, unfinished_of, interruptible, requested, request_interrupt, claimable, claimed,
  claim_next, running_with_id, tool_with_id, released, release_tool, fail_unfinished,
  is_interrupt_requested, insert, abandoned, is_tool_mode,
}
use agent_panel_x.Owner.Activations.Reachable.{
  Reachable, reachable_activations-Sound, fail_unfinished-parts,
}
use agent_panel_x.Owner.Lifecycle.{
  AgentExit, submit_input, work_state, state_of, claim_for_model, ActivationClaim, claim_for_tool,
  finish,
}
use agent_panel_x.Owner.Lifecycle.Moves.{
  Operation, Move, submit_input-parts, claim_for_model-parts, claim_for_tool-parts, ending_failure,
  ending-finished, finish-parts,
}

-- An operation of the lifecycle on the mailbox of a Feature, from one table to the next.
pub data Operates (t : String) (rows : List OwnerActivation)
    : Operation → List OwnerActivation → Type 0 where
  submits :
      (id : String) (now : ℕ) (task_type : ProjectOwnerTaskType) (message_id : String)
      (summary_id : Option String) (a : OwnerActivation) (rows' : List OwnerActivation)
      → submit_input id now t task_type message_id summary_id rows ≡ ok (a, rows')
      → Operates t rows Operation.submitting rows'
  claims_model :
      (n : ℕ) (a : OwnerActivation) (rows' : List OwnerActivation)
      → claim_for_model t n rows ≡ ok (some (a, rows'))
      → Operates t rows Operation.claiming_model rows'
  claims_tool :
      (n : ℕ) (allow : Bool) (c : ActivationClaim) (rows' : List OwnerActivation)
      → claim_for_tool t n allow rows ≡ ok (c, rows')
      → Operates t rows Operation.claiming_tool rows'
  interrupts :
      (a : OwnerActivation) (rows' : List OwnerActivation)
      → request_interrupt t rows ≡ ok (some (a, rows'))
      → Operates t rows Operation.interrupting rows'
  releases :
      (id : String) (a : OwnerActivation) (rows' : List OwnerActivation)
      → release_tool id rows ≡ ok (a, rows')
      → a.triage_id ≡ t
      → Operates t rows Operation.releasing rows'
  finishes :
      (activation : OwnerActivation) (result : AgentExit) (n : ℕ) (a : OwnerActivation)
      (rows' : List OwnerActivation)
      → finish activation result n rows ≡ ok (a, rows')
      → a.triage_id ≡ t
      → Operates t rows Operation.finishing rows'
  recovers :
      (n : ℕ) (failure : String) (failed_rows rows' : List OwnerActivation)
      → fail_unfinished t n failure rows ≡ ok (failed_rows, rows')
      → Operates t rows Operation.recovering rows'

-- The table after an operation is reached too.
operates-Reachable :
    (t : String) (rows rows' : List OwnerActivation) (o : Operation)
    → Reachable rows
    → Operates t rows o rows'
    → Reachable rows'
operates-Reachable t rows rows' o reached (Operates.submits id now ty m s a _ e) =
    let (_, _, valid, inserted) = submit_input-parts id now t ty m s rows rows' a e in
    Reachable.inserting a rows rows' reached valid inserted
operates-Reachable t rows rows' o reached (Operates.claims_model n a _ e) =
    Reachable.claiming t n model a rows rows' reached (claim_for_model-parts t n rows rows' a e)
operates-Reachable t rows rows' o reached (Operates.claims_tool n allow c _ e) =
    elim (claim_for_tool-parts t n allow rows rows' c e) [
      | inl (same, _, _) ↦ subst Reachable (sym same) reached
      | inr claimed_one ↦ Reachable.claiming t n tool c.activation rows rows' reached claimed_one
    ]
operates-Reachable t rows rows' o reached (Operates.interrupts a _ e) =
    Reachable.interrupting t a rows rows' reached e
operates-Reachable t rows rows' o reached (Operates.releases id a _ e same) =
    Reachable.releasing id a rows rows' reached e
operates-Reachable t rows rows' o reached (Operates.finishes activation result n a _ e same) =
    Reachable.ending activation.activation_id _ n (ending_failure result) a rows rows' reached
      (ending-finished result _) (finish-parts activation result n rows rows' a e)
operates-Reachable t rows rows' o reached (Operates.recovers n failure failed_rows _ e) =
    Reachable.failing t n failure failed_rows rows rows' reached e

-- A claim takes the unfinished activation of the Feature, pending with no driver or, for a Tool, with
-- the Tool as its driver, and it is the running one afterwards.
pub claim_next-claims :
    (t : String) (n : ℕ) (mode : OwnerActivationMode) (rows rows' : List OwnerActivation)
    (a : OwnerActivation)
    → Reachable rows
    → Reachable rows'
    → claim_next t n mode rows ≡ ok (some (a, rows'))
    → (old : OwnerActivation) × (find (unfinished_of t) rows ≡ some old)
      × (claimable t mode rows old ≡ true)
      × (find (unfinished_of t) rows' ≡ some a)
      × (a ≡ claimed mode n old)
unfolding claim_next
claim_next-claims t n mode rows rows' a before after e =
    let (update, _) = checked-some check_activation check_activation-identity _ a rows' e in
    let (old, is_old, made) = update_first-found _ _ rows rows' a update in
    let claims : claimable t mode rows old ≡ true = find-holds _ rows old is_old in
    (
      old,
      find-only (unfinished_of t) _ rows old
          ((reachable_activations-Sound rows before).one_unfinished t) is_old (ground arith),
      claims,
      update_first-only (unfinished_of t) _ _ rows rows' a update
          ((reachable_activations-Sound rows' after).one_unfinished t) (rw made (ground arith)),
      made,
    )

moves :
    {o : Operation} {before after : OwnerWorkState} (s s' : OwnerWorkState)
    → before ≡ s
    → after ≡ s'
    → Move o s s'
    → Move o before after
moves {o} {before} {after} s s' e e' m =
    subst (λ (x : OwnerWorkState). Move o x after) (sym e)
      (subst (λ (x : OwnerWorkState). Move o s x) (sym e') m)

inserted-found :
    (t : String) (a : OwnerActivation) (rows rows' : List OwnerActivation)
    → find (unfinished_of t) rows ≡ none
    → insert a rows ≡ ok rows'
    → unfinished_of t a ≡ true
    → find (unfinished_of t) rows' ≡ some a
unfolding raising insert
inserted-found t a rows rows' nothing e fits =
    ground (arith, find-place row_before (unfinished_of t) a rows)

-- The mailbox after the update of the only unfinished row of its Feature.
updated-state :
    (t : String) (picks : OwnerActivation → Bool) (change : OwnerActivation → OwnerActivation)
    (rows rows' : List OwnerActivation) (old a : OwnerActivation)
    → Reachable rows
    → Reachable rows'
    → update_first picks change rows ≡ some (a, rows')
    → find picks rows ≡ some old
    → unfinished_of t old ≡ true
    → unfinished_of t a ≡ true
    → (work_state t rows ≡ state_of (some old)) × (work_state t rows' ≡ state_of (some a))
updated-state t picks change rows rows' old a before after update is_old waits waits' = (
  ap state_of (
      find-only (unfinished_of t) picks rows old
        ((reachable_activations-Sound rows before).one_unfinished t) is_old waits),
  ap state_of (
      update_first-only (unfinished_of t) picks change rows rows' a update
        ((reachable_activations-Sound rows' after).one_unfinished t) waits'),
)

claim-Move :
    (t : String) (n : ℕ) (mode : OwnerActivationMode) (o : Operation)
    (rows rows' : List OwnerActivation) (a : OwnerActivation)
    → Move o runnable running
    → (is_tool_mode mode ≡ true → Move o waiting_for_control running)
    → Reachable rows
    → Reachable rows'
    → claim_next t n mode rows ≡ ok (some (a, rows'))
    → Move o (work_state t rows) (work_state t rows')
claim-Move t n mode o rows rows' a begin again before after e =
    let (old, found, claims, found', made) =
      claim_next-claims t n mode rows rows' a before after e in
    let active : work_state t rows' ≡ running = rw (found', made) refl in
    elim (Bool-cases (is_none old.driver_mode)) [
      | inl new ↦ moves runnable running (rw found (ground arith)) active begin
      | inr paused ↦
          moves waiting_for_control running (rw found (ground arith)) active (again (ground arith))
    ]

step-Move :
    (t : String) (rows rows' : List OwnerActivation) (o : Operation)
    → Reachable rows
    → Reachable rows'
    → Operates t rows o rows'
    → Move o (work_state t rows) (work_state t rows')
unfolding Activations.finish release_tool request_interrupt
step-Move t rows rows' o before after (Operates.submits id now ty m s a _ e) =
    let (nothing, made, _, inserted) = submit_input-parts id now t ty m s rows rows' a e in
    moves idle runnable (rw nothing refl)
      (rw (inserted-found t a rows rows' nothing inserted (rw made (ground (arith, eq_iff t t))))
        (rw made refl))
      Move.accept
step-Move t rows rows' o before after (Operates.claims_model n a _ e) =
    claim-Move t n model _ rows rows' a Move.start (λ h. absurd (ground arith)) before after
      (claim_for_model-parts t n rows rows' a e)
step-Move t rows rows' o before after (Operates.claims_tool n allow c _ e) =
    elim (claim_for_tool-parts t n allow rows rows' c e) [
      | inl (same, found, active) ↦
          moves running running (rw found (ground arith)) (rw (same, found) (ground arith))
            Move.join
      | inr claimed_one ↦
          claim-Move t n tool _ rows rows' c.activation Move.start_tool (λ h. Move.resume) before
            after claimed_one
    ]
step-Move t rows rows' o before after (Operates.interrupts a _ e) =
    let (update, _) = checked-some check_activation check_activation-identity _ a rows' e in
    let (old, is_old, made) = update_first-found (interruptible t) requested rows rows' a update in
    let fits : interruptible t old ≡ true = find-holds _ rows old is_old in
    let (s, s') =
      updated-state t (interruptible t) requested rows rows' old a before after update is_old
        (ground arith) (rw made (ground arith)) in
    moves running running (s ∙ ground arith) (s' ∙ rw made (ground arith)) Move.request
step-Move t rows rows' o before after (Operates.releases id a _ e same) =
    let (update, _) = checked-raised check_activation check_activation-identity _ _ a rows' e in
    let (old, is_old, made) = update_first-found (tool_with_id id) released rows rows' a update in
    let fits : tool_with_id id old ≡ true = find-holds _ rows old is_old in
    let home : (old.triage_id == t) ≡ true = ground (arith, made, eq_iff old.triage_id t) in
    let (s, s') =
      updated-state t (tool_with_id id) released rows rows' old a before after update is_old
        (ground arith) (rw made (ground arith)) in
    moves running waiting_for_control (s ∙ ground arith) (s' ∙ rw made (ground arith)) Move.pause
step-Move t rows rows' o before after (Operates.finishes activation result n a _ e same) =
    let (update, _) =
      checked-raised check_activation check_activation-identity _ _ a rows'
        (finish-parts activation result n rows rows' a e) in
    let (old, is_old, made) = update_first-found _ _ rows rows' a update in
    let fits : running_with_id activation.activation_id old ≡ true = find-holds _ rows old is_old in
    let home : (old.triage_id == t) ≡ true = ground (arith, made, eq_iff old.triage_id t) in
    let over : unfinished_of t a ≡ false = rw made (
      ground (
        arith,
        home,
        ending-finished result (is_interrupt_requested activation.activation_id rows),
      )) in
    let sound = (reachable_activations-Sound rows before).one_unfinished t in
    moves running idle
      (ap state_of (find-only (unfinished_of t) _ rows old sound is_old (ground arith))
        ∙ ground arith)
      (ap state_of (
        count-zero-find (unfinished_of t) rows' (
          update_first-drops (unfinished_of t) _ _ rows rows' old a update is_old sound
            (ground arith) over)))
      Move.end
step-Move t rows rows' o before after (Operates.recovers n failure failed_rows _ e) =
    let (_, same, _) = fail_unfinished-parts t n failure failed_rows rows rows' e in
    let cleared : find (unfinished_of t) rows' ≡ none =
      rw same (amend-clears (unfinished_of t) (abandoned n failure) (λ x h. ground arith) rows) in
    moves _ idle refl (ap state_of cleared) (Move.recover _)

-- Each of the seven operations of the lifecycle (all but the setting of a summary) that succeeds on a table that the repository reaches makes a move
-- of the abstract mailbox, from the scheduling state of the Feature before it to the one after it, and
-- leaves a table that the repository reaches.
pub operates-Move :
    (t : String) (rows rows' : List OwnerActivation) (o : Operation)
    → Reachable rows
    → Operates t rows o rows'
    → Move o (work_state t rows) (work_state t rows') × Reachable rows'
operates-Move t rows rows' o before step =
    let after = operates-Reachable t rows rows' o before step in
    (step-Move t rows rows' o before after step, after)
