-- ===== src/Tests/Computing/Takeover.antt =====
-- Opens the operations of automatic takeovers in a test that computes.
use agent_panel_x.Prelude.{raising, normalize, error_message}
use agent_panel_x.Table.{update_first}
use agent_panel_x.Runtime.{record_changes, transition, publish}
use agent_panel_x.Runtime.Changes.{state_changes}
use agent_panel_x.Takeover.{
  newer, newest_first, latest, check_attempt, check_active, require_active_fence, check_first,
  require_mutation_fence,
}
use agent_panel_x.Takeover.Operations.{
  insert_run, insert_attempt, begin_new, begin, end_attempt, correct, end_active, complete,
}
use agent_panel_x.Takeover.Service.{
  events_of, event_watermark, is_blocked_transition, state_of, still_blocked, new_blocked_event,
  insert_event, bounded, fail_active_run, fail, start_takeover, after_drive_released, phase_of,
  snapshot,
}
use agent_panel_x.Takeover.Service.Execute.{
  payload, result_error, complete_run, conclude, after_invoke, with_payload, take_round, give_up,
  leave, after_round, rounds, execute,
}
use agent_panel_x.Takeover.Service.Answer.{
  run_mismatch, attempt_mismatch, decision_mismatch, or_next, result_mismatch,
}

unfoldable pub computing_takeover : Unit {0}
unfolding raising normalize error_message update_first record_changes state_changes transition
    publish newer newest_first latest insert_run insert_attempt begin_new begin end_attempt correct
    end_active complete check_attempt check_active require_active_fence check_first
    require_mutation_fence events_of event_watermark is_blocked_transition state_of still_blocked
    new_blocked_event insert_event bounded fail_active_run fail start_takeover after_drive_released
    phase_of snapshot payload run_mismatch attempt_mismatch decision_mismatch or_next
    result_mismatch result_error complete_run conclude after_invoke with_payload take_round give_up
    leave after_round rounds execute
computing_takeover = tt
