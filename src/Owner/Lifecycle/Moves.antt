-- ===== src/Owner/Lifecycle/Moves.antt =====
-- The abstract mailbox: what each operation may do to the scheduling state, and what the code of an
-- operation did where it succeeded.
use agent_panel_x.Prelude.{
  ℕ, String, ◌≡◌, ap, ◌∙◌, sym, ◌⊎◌, inl, inr, Bool, true, false, ◌||◌, if◌then◌else◌, Option, none,
  some, List, arith, Bool-cases, Option-cases, raising, ok, Result-cases,
}
use agent_panel_x.Runtime.{OwnerWorkState, idle, runnable, running, waiting_for_control}
use agent_panel_x.Owner.{
  ProjectOwnerTaskType, OwnerActivationStatus, model, tool, OwnerActivation, is_running,
  is_unfinished, check_activation,
}
use agent_panel_x.Owner.Checks.{check_activation-identity}
use agent_panel_x.Owner.Activations
use agent_panel_x.Owner.Activations.{
  get_unfinished, get_latest, insert, claim_next, is_interrupt_requested,
}
use agent_panel_x.Owner.Lifecycle.{
  AgentExit, previous_interrupted, new_activation, submit_input, claimed_or_raise, claim_model,
  claim_for_model, ActivationClaim, claim_tool, claim_for_tool, finish, is_failed_exit,
  is_user_interrupted, failure_of,
}

pub data Operation : Type 0 where
  submitting claiming_model claiming_tool interrupting releasing finishing recovering : Operation

-- The moves of the mailbox: an input is accepted by an idle mailbox; the model starts a runnable
-- activation; a Tool step starts one, resumes one, or joins the running one; an interruption is a
-- request; a Tool step pauses; and the end of an activation, or the recovery, leaves the mailbox idle.
pub data Move : Operation → OwnerWorkState → OwnerWorkState → Type 0 where
  accept : Move submitting idle runnable
  start : Move claiming_model runnable running
  start_tool : Move claiming_tool runnable running
  resume : Move claiming_tool waiting_for_control running
  join : Move claiming_tool running running
  request : Move interrupting running running
  pause : Move releasing running waiting_for_control
  end : Move finishing running idle
  recover : (s : OwnerWorkState) → Move recovering s idle

-- What a submitted activation is: checked, new, and inserted in a table with no unfinished one.
pub submit_input-parts :
    (id : String) (now : ℕ) (t : String) (task_type : ProjectOwnerTaskType) (message_id : String)
    (summary_id : Option String) (rows rows' : List OwnerActivation) (a : OwnerActivation)
    → submit_input id now t task_type message_id summary_id rows ≡ ok (a, rows')
    → (get_unfinished t rows ≡ none)
      × (a
          ≡ new_activation id t task_type message_id summary_id
              (previous_interrupted (get_latest t rows))
              now)
      × (check_activation a ≡ ok a)
      × (insert a rows ≡ ok rows')
unfolding raising submit_input
submit_input-parts id now t ty m s rows rows' a h =
    elim (Result-cases (
      check_activation
        (new_activation id t ty m s (previous_interrupted (get_latest t rows)) now))) [
          | inr (x, e) ↦ absurd (ground (arith, e))
          | inl (made, e) ↦ elim (Result-cases (insert made rows)) [
            | inr (x, i) ↦ absurd (ground (arith, e, i))
            | inl (table, i) ↦
                (let same = check_activation-identity _ made e in
                  let at_a : made ≡ a = ground (arith, e, i) in
                  let at_rows : table ≡ rows' = ground (arith, e, i) in
                  (
                    ground (arith, e, i),
                    sym at_a ∙ same,
                    ap check_activation (sym at_a ∙ same) ∙ e ∙ ap ok at_a,
                    ap (λ (b : OwnerActivation). insert b rows) (sym at_a) ∙ i ∙ ap ok at_rows,
                  ))
          ]
        ]

claim_model-parts :
    (t : String) (n : ℕ) (rows : List OwnerActivation) (unfinished : Option OwnerActivation)
    (a : OwnerActivation) (rows' : List OwnerActivation)
    → claim_model t n rows unfinished ≡ ok (some (a, rows'))
    → claim_next t n model rows ≡ ok (some (a, rows'))
unfolding raising claim_model
claim_model-parts t n rows none a rows' h = absurd (ground arith)
claim_model-parts t n rows (some u) a rows' h = ground arith

pub claim_for_model-parts :
    (t : String) (n : ℕ) (rows rows' : List OwnerActivation) (a : OwnerActivation)
    → claim_for_model t n rows ≡ ok (some (a, rows'))
    → claim_next t n model rows ≡ ok (some (a, rows'))
unfolding claim_for_model
claim_for_model-parts t n rows rows' a h = claim_model-parts t n rows _ a rows' h

-- A Tool claim joins the running Tool activation, or claims the waiting one.
pub claim_for_tool-parts :
    (t : String) (n : ℕ) (allow : Bool) (rows rows' : List OwnerActivation) (c : ActivationClaim)
    → claim_for_tool t n allow rows ≡ ok (c, rows')
    → ((rows' ≡ rows)
        × (get_unfinished t rows ≡ some c.activation)
        × (is_running c.activation.status ≡ true))
      ⊎ (claim_next t n tool rows ≡ ok (some (c.activation, rows')))
unfolding raising claim_for_tool claim_tool claimed_or_raise
claim_for_tool-parts t n allow rows rows' c h = elim (Option-cases (get_unfinished t rows)) [
  | inl nothing ↦ absurd (ground (arith, nothing))
  | inr (u, found) ↦ elim (Bool-cases (is_running u.status)) [
    | inl active ↦ inl (
      ground (arith, found, active),
      ground (arith, found, active),
      ground (arith, found, active),
    )
    | inr waiting ↦ inr (ground (arith, found, waiting))
  ]
]

mark_failed-parts :
    (id : String) (n : ℕ) (failure : String) (rows : List OwnerActivation)
    (result : OwnerActivation × List OwnerActivation)
    → Activations.mark_failed id n failure rows ≡ ok result
    → Activations.finish id OwnerActivationStatus.failed n (some failure) rows ≡ ok result
unfolding raising Activations.mark_failed
mark_failed-parts id n failure rows result h = ground arith

-- How an activation ends: a failed exit counts before an interruption, and that before a completion.
abbrev pub ending : AgentExit → Bool → OwnerActivationStatus
ending result interrupted =
    if is_failed_exit result.status
    then OwnerActivationStatus.failed
    else if is_user_interrupted result.status || interrupted
    then OwnerActivationStatus.interrupted
    else OwnerActivationStatus.completed

abbrev pub ending_failure : AgentExit → Option String
ending_failure result = if is_failed_exit result.status then some (failure_of result) else none

pub ending-finished :
    (result : AgentExit) (interrupted : Bool) → is_unfinished (ending result interrupted) ≡ false
ending-finished result interrupted = ground arith

-- However an activation ends, its running row is finished with the status and the failure of that end.
pub finish-parts :
    (activation : OwnerActivation) (result : AgentExit) (n : ℕ) (rows rows' : List OwnerActivation)
    (a : OwnerActivation)
    → finish activation result n rows ≡ ok (a, rows')
    → Activations.finish activation.activation_id
        (ending result (is_interrupt_requested activation.activation_id rows))
        n
        (ending_failure result)
        rows
      ≡ ok (a, rows')
unfolding finish Activations.mark_interrupted Activations.mark_completed
finish-parts activation result n rows rows' a h = elim (Bool-cases (is_failed_exit result.status)) [
  | inl fails ↦
      (let m : Activations.mark_failed activation.activation_id n (failure_of result) rows
            ≡ ok (a, rows') =
          rw fails at h in
        rw fails
          (mark_failed-parts activation.activation_id n (failure_of result) rows (a, rows') m))
  | inr ends ↦
      rw ends
        (elim (Bool-cases (
          is_user_interrupted result.status
          || is_interrupt_requested activation.activation_id rows)) [
            | inl stops ↦ rw stops (ground (arith, ends, stops))
            | inr completes ↦ rw completes (ground (arith, ends, completes))
          ])
]
