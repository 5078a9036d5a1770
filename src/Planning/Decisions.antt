-- ===== src/Planning/Decisions.antt =====
-- What the approval and the rejection of a Plan do.
use agent_panel_x.Runtime.Transition.{submit_owner_input-at}
use agent_panel_x.Prelude.{
  String, ◌≡◌, refl, ◌∙◌, none, some, arith, if◌then◌else◌, is_some, Ensures, Ensures-bind,
  Ensures-guard, Ensures-or_raise, Ensures-then, Ensures-ok, raising, Result, ok,
}
use agent_panel_x.State.{plan_approval, ProjectRuntimeState, post_init}
use agent_panel_x.Event.{RuntimeContextChangeReason}
use agent_panel_x.Runtime.{OwnerWorkState, ProjectOwnerTask, World, publish}
use agent_panel_x.Runtime.Transition.{transition-moved}
use agent_panel_x.Planning.Checkpoint.{same_digest}
use agent_panel_x.Planning.{PlanRepository, assert_pending_action, assert_same_pending_plan}
use agent_panel_x.Planning.Approval.{
  checkpoint_plan, PlanDecision, approve_mutation, reject_mutation, apply_decision, approve_plan,
  reject_plan,
}

-- What an approved Plan leaves: the commit that holds the reviewed documents is the Plan and, in a
-- rolling delivery, the target.
pub record Approved (before after : PlanRepository) (w : World) (d : PlanDecision) (w' : World)
    : Type 0 where
  pub digest : String
  pub commit : String
  pub reviewed : w.state.pending_plan_subject_digest ≡ some digest
  pub waiting : w.state.pending_action ≡ some plan_approval
  pub before_digest : before.worktree_digest ≡ ok digest
  pub checkpoint : checkpoint_plan before w.state digest ≡ ok commit
  pub committed : after.commit_digest commit ≡ ok digest
  pub after_digest : after.worktree_digest ≡ ok digest
  pub named : d.commit_sha ≡ some commit
  pub state : w'.state ≡ record w.state {
    pending_action = none;
    pending_plan_subject_digest = none;
    current_plan_commit_sha = some commit;
    git_main_version =
        if is_some w.state.rolling_started_at then some commit else w.state.git_main_version;
  }
  pub stage_runs : w'.stage_runs ≡ w.stage_runs
  pub was_idle : w.owner_work ≡ OwnerWorkState.idle
  pub informed : w'.owner_work ≡ OwnerWorkState.runnable

-- The transaction of a decision.
record Decided (mutate : ProjectRuntimeState → Result ProjectRuntimeState) (w : World)
    (updated : ProjectRuntimeState) (w' : World) : Type 0 where
  made : mutate w.state ≡ ok updated
  state : w'.state ≡ updated
  stage_runs : w'.stage_runs ≡ w.stage_runs
  was_idle : w.owner_work ≡ OwnerWorkState.idle
  informed : w'.owner_work ≡ OwnerWorkState.runnable

apply_decision-Decided :
    (task : ProjectOwnerTask) (cause : RuntimeContextChangeReason)
    (mutate : ProjectRuntimeState → Result ProjectRuntimeState) (message_id : String) (w : World)
    → Ensures
        (apply_decision task cause mutate message_id w)
        (λ result. Decided mutate w result.0 result.1)
unfolding apply_decision
apply_decision-Decided task cause mutate message_id w = Ensures-bind _ _ λ step moves.
    Ensures-bind _ _ λ final sent.
      let (m, _, e) = transition-moved cause mutate w step.0 step.1 moves in
      let (idle, after) = submit_owner_input-at task message_id step.1 final sent in
      Ensures-ok _ _ (record {
        made = m;
        state = ground (arith, after, e);
        stage_runs = ground (arith, after, e);
        was_idle = ground (arith, idle, e);
        informed = ground (arith, after);
      })

approve_mutation-at :
    (digest commit : String) (s t : ProjectRuntimeState)
    → approve_mutation digest commit s ≡ ok t
    → (t ≡ record s {
      pending_action = none;
      pending_plan_subject_digest = none;
      current_plan_commit_sha = some commit;
      git_main_version = if is_some s.rolling_started_at then some commit else s.git_main_version;
    })
      × (s.pending_action ≡ some plan_approval)
unfolding raising approve_mutation assert_same_pending_plan assert_pending_action post_init
approve_mutation-at digest commit s t h = (ground arith, ground arith)

reject_mutation-at :
    (digest : String) (s t : ProjectRuntimeState)
    → reject_mutation digest s ≡ ok t
    → (t ≡ record s { pending_action = none; pending_plan_subject_digest = none })
      × (s.pending_action ≡ some plan_approval)
unfolding raising reject_mutation assert_same_pending_plan assert_pending_action post_init
reject_mutation-at digest s t h = (ground arith, ground arith)

approve_plan-Ensures :
    (before after : PlanRepository) (message_id : String) (w : World)
    → Ensures
        (approve_plan before after message_id w)
        (λ result. Approved before after w result.0 result.1)
unfolding approve_plan publish
approve_plan-Ensures before after message_id w = Ensures-then _ _ λ _.
    Ensures-or_raise _ _ _ λ digest reviewed. Ensures-bind _ _ λ found read.
      Ensures-guard _ _ _ λ same. Ensures-bind _ _ λ commit made.
        Ensures-bind _ _ λ committed read'. Ensures-guard _ _ _ λ same'.
          Ensures-bind _ _ λ again read''. Ensures-guard _ _ _ λ same''.
            Ensures-bind _ _ λ step applied.
              let d : Decided (approve_mutation digest commit) w step.0 step.1 =
                (apply_decision-Decided _ _ (approve_mutation digest commit) message_id w).at step
                  applied in
              let (at, waiting) = approve_mutation-at digest commit w.state step.0 d.made in
              Ensures-ok _ _ (record {
                digest = digest;
                commit = commit;
                reviewed = reviewed;
                waiting = waiting;
                before_digest = same_digest _ found digest read same;
                checkpoint = made;
                committed = same_digest _ committed digest read' same';
                after_digest = same_digest _ again digest read'' same'';
                named = refl;
                state = d.state ∙ at;
                stage_runs = d.stage_runs;
                was_idle = d.was_idle;
                informed = d.informed;
              })

-- Approving a Plan fixes exactly what was reviewed: the documents have the reviewed digest before and
-- after the checkpoint, and so has the commit. The commit is the current Plan and, in a rolling
-- delivery, the target; the pending action is over; the StageRuns stay; and the idle Owner is informed.
pub approve_plan-Approved :
    (before after : PlanRepository) (message_id : String) (w w' : World) (d : PlanDecision)
    → approve_plan before after message_id w ≡ ok (d, w')
    → Approved before after w d w'
approve_plan-Approved before after message_id w w' d h =
    (approve_plan-Ensures before after message_id w).at (d, w') h

reject_plan-at :
    (feedback message_id : String) (w : World)
    → Ensures (reject_plan feedback message_id w) (λ result.
      (result.1.state
        ≡ record w.state { pending_action = none; pending_plan_subject_digest = none })
      × (result.1.stage_runs ≡ w.stage_runs))
unfolding reject_plan publish
reject_plan-at feedback message_id w = Ensures-then _ _ λ _. Ensures-or_raise _ _ _ λ digest _.
    Ensures-bind _ _ λ step applied.
      let d : Decided (reject_mutation digest) w step.0 step.1 =
        (apply_decision-Decided _ _ (reject_mutation digest) message_id w).at step applied in
      Ensures-ok _ _ (d.state ∙ (reject_mutation-at digest w.state step.0 d.made).0, d.stage_runs)

pub reject_plan-cleared :
    (feedback message_id : String) (w w' : World) (d : PlanDecision)
    → reject_plan feedback message_id w ≡ ok (d, w')
    → (w'.state ≡ record w.state { pending_action = none; pending_plan_subject_digest = none })
      × (w'.stage_runs ≡ w.stage_runs)
reject_plan-cleared feedback message_id w w' d h =
    (reject_plan-at feedback message_id w).at (d, w') h
