-- ===== src/Tests/Plans.antt =====
-- A Plan of the project: requested, approved, rejected.
use agent_panel_x.Prelude.{
  [], String, ◌≡◌, refl, false, none, some, ◌∷◌, ◌==◌, Result, ok, if◌then◌else◌,
}
use agent_panel_x.State.{triage, todo, is_triage, plan_approval}
use agent_panel_x.Runtime.{World}
use agent_panel_x.Planning.{
  PlanRepository, PlanHardGate, plan_pass, PlanApprovalRequest, request_plan_approval,
}
use agent_panel_x.Planning.Approval.{PlanDecision, approve_plan, reject_plan}
use agent_panel_x.Planning.Checkpoint.{Checkpoint, checkpoint_plan-Checkpoint}
use agent_panel_x.Planning.Decisions.{Approved, approve_plan-Approved}
use agent_panel_x.Planning.Requests.{
  KeepsState, PlanRequested, request_plan_approval-PlanRequested, request-reject_plan,
}
use agent_panel_x.Tests.Computing.{computing}
use agent_panel_x.Tests.Data.{two_milestones, from_ok, world_of, between_runs, unstarted}

-- The documents have the digest "d"; the commit "p" on "c0" holds them.
abbrev planned : String → PlanRepository
planned head = record {
  worktree_digest = ok "d";
  commit_digest = λ _. ok "d";
  changed_paths = if head == "c0" then ok ("roadmap.md" ∷ []) else ok [];
  head_sha = ok head;
  current_branch = ok "main";
  commit_parent = λ _. ok "c0";
  changed_paths_between = λ _ _. ok ("roadmap.md" ∷ []);
  commit_paths = ok "p";
}

abbrev new_project : World
new_project = world_of (record unstarted { status = triage }) two_milestones []

abbrev rolling_project : World
rolling_project = world_of between_runs two_milestones []

abbrev plan_waits : World
plan_waits =
    world_of
      (record between_runs {
        pending_action = some plan_approval;
        pending_plan_subject_digest = some "d";
      })
      two_milestones []

abbrev passing : PlanHardGate
passing digest w = (
  ok (record {
    subject_digest = digest;
    decision = plan_pass;
    summary = "fine";
    required_changes = [];
  }),
  w,
)

passing_keeps : KeepsState passing
passing_keeps = record { same = λ digest w. refl }

abbrev no_request : World → PlanApprovalRequest
no_request w = record { state = w.state; accepted = false; subject_digest = ""; review = none }

abbrev requested_plan : World → Result PlanApprovalRequest × World
requested_plan w = request_plan_approval (planned "c0") (planned "c0") passing w

abbrev no_decision : World → PlanDecision × World
no_decision w = (record { state = w.state; commit_sha = none }, w)

abbrev approved_plan : PlanDecision × World
approved_plan =
    from_ok (no_decision plan_waits) (approve_plan (planned "c0") (planned "p") "m" plan_waits)

abbrev rejected_plan : World → PlanDecision × World
rejected_plan w = from_ok (no_decision w) (reject_plan " no " "m" w)

approved_target : approved_plan.1.state.git_main_version ≡ some "p"
unfolding computing
approved_target = refl

approve_plan-Approved_example :
    Approved (planned "c0") (planned "p") plan_waits approved_plan.0 approved_plan.1
unfolding computing
approve_plan-Approved_example =
    approve_plan-Approved (planned "c0") (planned "p") "m" plan_waits approved_plan.1
      approved_plan.0 refl

checkpoint_plan-Checkpoint_example : Checkpoint (planned "p") "c0" "d" "p"
unfolding computing
checkpoint_plan-Checkpoint_example =
    checkpoint_plan-Checkpoint (planned "p") plan_waits.state "c0" "d" "p" 1 refl refl refl

request_plan_approval-PlanRequested_example :
    PlanRequested rolling_project
      (from_ok (no_request rolling_project) (requested_plan rolling_project).0)
      (requested_plan rolling_project).1
unfolding computing
request_plan_approval-PlanRequested_example =
    request_plan_approval-PlanRequested (planned "c0") (planned "c0") passing rolling_project
      (requested_plan rolling_project).1
      (from_ok (no_request rolling_project) (requested_plan rolling_project).0) passing_keeps refl

request-reject_plan_example :
    (rejected_plan (requested_plan new_project).1).1.state ≡ record new_project.state {
      status = if is_triage new_project.state.status then todo else new_project.state.status;
    }
unfolding computing
request-reject_plan_example =
    request-reject_plan (planned "c0") (planned "c0") passing " no " "m" new_project
      (requested_plan new_project).1 (rejected_plan (requested_plan new_project).1).1
      (from_ok (no_request new_project) (requested_plan new_project).0)
      (rejected_plan (requested_plan new_project).1).0 passing_keeps refl refl refl refl
