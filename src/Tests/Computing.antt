-- ===== src/Tests/Computing.antt =====
-- Opens the operations of Delivery in a test that computes.
pub mod Owner
pub mod Takeover
use agent_panel_x.Prelude.{raising, normalize, is_blank, strip}
use agent_panel_x.Delivery.Driver.{
  snapshot_for_context, first_pending_milestone, at_cursor, assert_current_stage,
  assert_retryable_blocked, active_work,
}
use agent_panel_x.Delivery.Driver.Candidate.{
  latest_from, latest_of, effective_stage_runs, revision_base, base_of, starts_at, expected_input,
  chain, last_key, candidate_chain, at_candidate, candidate_contract, queue_candidate_revision,
}
use agent_panel_x.Delivery.Driver.Contract.{
  revision_contract, stage_contract, advance_stage, candidate_ready, stage_failed,
  block_runtime_execution, next_stage,
}
use agent_panel_x.Delivery.Driver.Queue.{
  retry_source, later_guards, unless_first, run_identity, select_stage, select_input, is_same_run,
  assert_queueable, queued_state, queued_event, queue_transaction, queue_run,
}
use agent_panel_x.Delivery.Driver.Stages.{
  revision_root, first_attempt, executor_session_stage_run_id, started_event, claim_next_stage,
  continue_run, succeed_stage, submit_revision_failure, fail_stage, submit_failures,
  reconcile_failed, reconcile_interrupted_work,
}
use agent_panel_x.Delivery.Models.{
  require_text, require_identifier, require_unique, check_identity, check_stage, check_milestone,
  check_snapshot, check_lifecycle, check_provenance, check_stage_run, delivery_run_ref,
  delivery_candidate_ref,
}
use agent_panel_x.Delivery.Service.{
  assert_specs, unless_no_run, previous_snapshot, assert_publishable, prepare_milestone_view,
  validate_review, block_after_rejection, unless_retryable, publish_snapshot, publish_view,
}
use agent_panel_x.Delivery.Service.Decide.{
  accept_candidate, reject_candidate, recheck, decided_event, completed_event,
}
use agent_panel_x.Delivery.Service.Decide.Branches.{
  publish_if, next_key, accept_branch, release_candidate, reject_branch, revision_event,
  queue_revision, revise_branch, decide_as, decide_milestone_candidate,
}
use agent_panel_x.Delivery.Service.History.{
  rejection_before, revision_before, has_unaccepted_rejection, has_unaccepted_revision,
}
use agent_panel_x.Delivery.Service.Publish.{
  gate_event, gate_outcome, run_milestone_hard_gate, updated_event, revises, finish_update,
  first_phase, reviewed, second_phase, update_milestones,
}
use agent_panel_x.Delivery.Service.Runs.{
  request_first_run, requested_event, retry_event, request_first, request_retry, request_queue,
  request_next_milestone, approved_event, approve_blocked_run, start_first_run, feedback_event,
  reject_blocked_run, reject_first_run,
}
use agent_panel_x.Delivery.Service.Target.{
  assert_candidate_ref, head_allowed, assert_candidate_target, recover, integrated_git,
  integrate_candidate,
}
use agent_panel_x.Delivery.Snapshot.{
  first_pending, with_completed_milestone, candidate_successor_snapshot, merge_pending_milestones,
  insert as snapshot_insert,
}
use agent_panel_x.Delivery.StageRuns.{
  row_before, insert as stageruns_insert, claim_next, finish, mark_succeeded, mark_failed,
  fail_active,
}
use agent_panel_x.Event.{value}
use agent_panel_x.Table.{place, update_first, checked, check_rows}
use agent_panel_x.Runtime.{record_changes, transition, publish, submit_owner_input}
use agent_panel_x.Runtime.Changes.{state_changes}
use agent_panel_x.State.{post_init}
use agent_panel_x.Planning.{
  validate_plan_review, assert_requestable, assert_pending_action, assert_same_pending_plan,
  plan_gate_event, plan_gate_outcome, run_hard_gate, request_plan, plan_revises,
  plan_requested_event, finish_request, requested_subject, plan_reviewed, request_subject,
  request_plan_approval,
}
use agent_panel_x.Planning.Approval.{
  commit_specs, is_reusable_checkpoint, reuse_checkpoint, checkpoint_from, checkpoint_plan,
  approve_mutation, reject_mutation, plan_event, apply_decision, approve_plan, stripped,
  reject_plan,
}

unfoldable pub computing : Unit {0}
unfolding raising place update_first checked check_rows normalize is_blank strip
    snapshot_for_context first_pending_milestone at_cursor assert_current_stage
    assert_retryable_blocked active_work latest_from latest_of effective_stage_runs revision_base
    base_of starts_at expected_input chain last_key candidate_chain at_candidate candidate_contract
    queue_candidate_revision revision_contract stage_contract advance_stage candidate_ready
    stage_failed block_runtime_execution next_stage retry_source later_guards unless_first
    run_identity select_stage select_input is_same_run assert_queueable queued_state queued_event
    queue_transaction queue_run revision_root first_attempt executor_session_stage_run_id
    started_event claim_next_stage continue_run succeed_stage submit_revision_failure fail_stage
    submit_failures reconcile_failed reconcile_interrupted_work require_text require_identifier
    require_unique check_identity check_stage check_milestone check_snapshot check_lifecycle
    check_provenance check_stage_run delivery_run_ref delivery_candidate_ref assert_specs
    unless_no_run previous_snapshot assert_publishable prepare_milestone_view validate_review
    block_after_rejection unless_retryable publish_snapshot publish_view accept_candidate
    reject_candidate recheck decided_event completed_event publish_if next_key accept_branch
    release_candidate reject_branch revision_event queue_revision revise_branch decide_as
    decide_milestone_candidate rejection_before revision_before has_unaccepted_rejection
    has_unaccepted_revision gate_event gate_outcome run_milestone_hard_gate updated_event revises
    finish_update first_phase reviewed second_phase update_milestones request_first_run
    requested_event retry_event request_first request_retry request_queue request_next_milestone
    approved_event approve_blocked_run start_first_run feedback_event reject_blocked_run
    reject_first_run assert_candidate_ref head_allowed assert_candidate_target recover
    integrated_git integrate_candidate first_pending with_completed_milestone
    candidate_successor_snapshot merge_pending_milestones snapshot_insert row_before
    stageruns_insert claim_next finish mark_succeeded mark_failed fail_active value record_changes
    transition publish submit_owner_input state_changes post_init validate_plan_review
    assert_requestable assert_pending_action assert_same_pending_plan plan_gate_event
    plan_gate_outcome run_hard_gate request_plan plan_revises plan_requested_event finish_request
    requested_subject plan_reviewed request_subject request_plan_approval commit_specs
    is_reusable_checkpoint reuse_checkpoint checkpoint_from checkpoint_plan approve_mutation
    reject_mutation plan_event apply_decision approve_plan stripped reject_plan
computing = tt
