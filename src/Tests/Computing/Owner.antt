-- ===== src/Tests/Computing/Owner.antt =====
-- Opens the operations of the Owner's mailbox in a test that computes.
use agent_panel_x.Prelude.{raising, is_blank, strip}
use agent_panel_x.Table.{place, update_first, checked, check_rows}
use agent_panel_x.Runtime.{submit_owner_input as accept_owner_input}
use agent_panel_x.Owner.{check_activation}
use agent_panel_x.Owner.Activations.{
  row_before, insert, request_interrupt, is_interrupt_requested, claim_next, finish as end_row,
  mark_completed, mark_interrupted, mark_failed, set_initial_summary, fail_unfinished, release_tool,
}
use agent_panel_x.Owner.Lifecycle.{
  exit_value, previous_interrupted, submit_input, claim_for_model, claim_tool, claim_for_tool,
  failure_of, finish,
}
use agent_panel_x.Takeover.{require_mutation_fence, check_first}
use agent_panel_x.Owner.Context.{
  mutation_fence_guard, type_value, mode_value, stage_activation, stage_event, entered_event,
  exited_event, interrupted_event, user_interrupted_event, block_after_owner_failure,
  submit_owner_input, block_if, announced, note_interruption, finish_owner_in_transaction,
}
use agent_panel_x.Owner.Context.Drive.{
  error_text, finish_owner, claim_in_transaction, claim_owner, drive_claimed, drive_owner,
  claim_step, step_claimed, drive_owner_tool, reply_owner, fail_owner, execute_tool, note_failures,
  reconcile_interrupted_owner, request_owner_interrupt,
}

unfoldable pub computing_owner : Unit {0}
unfolding raising is_blank strip place update_first checked check_rows accept_owner_input
    check_activation row_before insert request_interrupt is_interrupt_requested claim_next end_row
    mark_completed mark_interrupted mark_failed set_initial_summary fail_unfinished release_tool
    exit_value previous_interrupted submit_input claim_for_model claim_tool claim_for_tool
    failure_of finish type_value mode_value stage_activation stage_event entered_event exited_event
    interrupted_event user_interrupted_event block_after_owner_failure submit_owner_input block_if
    announced note_interruption finish_owner_in_transaction require_mutation_fence check_first
    mutation_fence_guard finish_owner claim_in_transaction error_text claim_owner drive_claimed
    drive_owner claim_step step_claimed drive_owner_tool reply_owner fail_owner execute_tool
    note_failures reconcile_interrupted_owner request_owner_interrupt
computing_owner = tt
