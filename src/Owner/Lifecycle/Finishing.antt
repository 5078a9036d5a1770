-- ===== src/Owner/Lifecycle/Finishing.antt =====
-- The end of an activation that runs (`finish` of _activation.py).

use agent_panel_x.Prelude.{
  ℕ, String, ◌≡◌, refl, ◌∙◌, inl, inr, true, false, ◌||◌, Option, none, some, List, arith,
  Bool-cases, find, find-holds, is_blank, is_blank-strip, raising, ok,
}
use agent_panel_x.Table.{checked}
use agent_panel_x.Table.Finding.{update_first-total}
use agent_panel_x.Table.Checked.{Passes, find-All}
use agent_panel_x.Owner.{OwnerActivationStatus, OwnerActivation, is_running, check_activation}
use agent_panel_x.Owner.Activations
use agent_panel_x.Owner.Activations.{running_with_id, finished, is_interrupt_requested}
use agent_panel_x.Owner.Activations.Reachable.{Reachable, reachable_activations-Sound}
use agent_panel_x.Owner.Lifecycle.{
  AgentExitStatus, AgentExit, exit_value, is_failed_exit, is_user_interrupted, failure_of, finish,
}
use agent_panel_x.Owner.Lifecycle.Moves.{ending, ending_failure}

exit_value-filled : (status : AgentExitStatus) → is_blank (exit_value status) ≡ false
unfolding is_blank exit_value
exit_value-filled AgentExitStatus.reply_to_human = refl
exit_value-filled AgentExitStatus.plan_approval_requested = refl
exit_value-filled AgentExitStatus.first_run_approval_requested = refl
exit_value-filled AgentExitStatus.blocked_run_approval_requested = refl
exit_value-filled AgentExitStatus.milestone_run_queued = refl
exit_value-filled AgentExitStatus.triage_development_completed = refl
exit_value-filled AgentExitStatus.agent_task_queued = refl
exit_value-filled AgentExitStatus.user_interrupted = refl
exit_value-filled AgentExitStatus.manual_drive_failed = refl
exit_value-filled AgentExitStatus.repeated_format_error = refl
exit_value-filled AgentExitStatus.repeated_candidate_rejection = refl
exit_value-filled AgentExitStatus.repeated_candidate_revision = refl
exit_value-filled AgentExitStatus.step_limit_exceeded = refl
exit_value-filled AgentExitStatus.unhandled_exception = refl

failure_of-filled : (result : AgentExit) → is_blank (failure_of result) ≡ false
unfolding failure_of
failure_of-filled result = elim (Bool-cases (is_blank result.content)) [
  | inl blank ↦ rw blank (exit_value-filled result.status)
  | inr filled ↦ rw filled (is_blank-strip result.content ∙ filled)
]

-- The checks of a running row carry over to the row at its end.
failed-Passes :
    (old : OwnerActivation) (n : ℕ) (failure : String)
    → is_running old.status ≡ true
    → is_blank failure ≡ false
    → Passes check_activation old
    → Passes check_activation (finished OwnerActivationStatus.failed n (some failure) old)
unfolding raising check_activation
failed-Passes old n failure runs filled valid = ground arith

interrupted-Passes :
    (old : OwnerActivation) (n : ℕ)
    → is_running old.status ≡ true
    → Passes check_activation old
    → Passes check_activation (finished OwnerActivationStatus.interrupted n none old)
unfolding raising check_activation
interrupted-Passes old n runs valid = ground arith

completed-Passes :
    (old : OwnerActivation) (n : ℕ)
    → is_running old.status ≡ true
    → Passes check_activation old
    → Passes check_activation (finished OwnerActivationStatus.completed n none old)
unfolding raising check_activation
completed-Passes old n runs valid = ground arith

finishes :
    (id : String) (status : OwnerActivationStatus) (n : ℕ) (failure : Option String)
    (rows : List OwnerActivation) (old : OwnerActivation)
    → find (running_with_id id) rows ≡ some old
    → Passes check_activation (finished status n failure old)
    → (rows' : List OwnerActivation) × (Activations.finish id status n failure rows
        ≡ ok (finished status n failure old, rows'))
unfolding raising Activations.finish checked
finishes id status n failure rows old found valid =
    let (rows', e) =
      update_first-total (running_with_id id) (finished status n failure) rows old found in
    (rows', rw (e, valid) refl)

-- On a table that the repository reaches, a running activation can be ended with every exit of the
-- Owner, also one with a blank content: its row becomes FAILED, INTERRUPTED or COMPLETED by the exit
-- and the interrupt request, with a failure exactly if it is FAILED.
pub finish-ends :
    (activation old : OwnerActivation) (result : AgentExit) (n : ℕ) (rows : List OwnerActivation)
    → Reachable rows
    → find (running_with_id activation.activation_id) rows ≡ some old
    → (rows' : List OwnerActivation) × (finish activation result n rows
        ≡ ok (
          finished
              (ending result (is_interrupt_requested activation.activation_id rows))
              n
              (ending_failure result)
              old,
          rows',
        ))
unfolding raising finish Activations.mark_failed Activations.mark_interrupted
    Activations.mark_completed
finish-ends activation old result n rows reached found =
    let valid =
      find-All (Passes check_activation) _ rows old (reachable_activations-Sound rows reached).valid
        found in
    let fits : running_with_id activation.activation_id old ≡ true = find-holds _ rows old found in
    let runs : is_running old.status ≡ true = ground arith in
    elim (Bool-cases (is_failed_exit result.status)) [
      | inl fails ↦
          (let filled = failure_of-filled result in
            let (rows', e) =
              finishes activation.activation_id _ n _ rows old found
                (failed-Passes old n (failure_of result) runs filled valid) in
            (rows', rw (fails, filled) e))
      | inr ends ↦
          elim (Bool-cases (
            is_user_interrupted result.status
            || is_interrupt_requested activation.activation_id rows)) [
              | inl stops ↦
                  (let (rows', e) =
                      finishes activation.activation_id _ n _ rows old found
                        (interrupted-Passes old n runs valid) in
                    (rows', rw (ends, stops) e))
              | inr completes ↦
                  (let (rows', e) =
                      finishes activation.activation_id _ n _ rows old found
                        (completed-Passes old n runs valid) in
                    (rows', rw (ends, completes) e))
            ]
    ]
