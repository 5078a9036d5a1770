-- ===== src/Delivery/Driver/Queue/Receipt.antt =====
-- What a queued Run leaves in the store, and which states may queue one.
use agent_panel_x.Delivery.Models.Checks.{check_stage_run-identity}
use agent_panel_x.Prelude.{
  raising, ℕ, String, ◌≡◌, refl, sym, ap, inl, inr, Bool, true, false, not, ◌&&◌, Option, none,
  some, arith, eq_iff, if◌then◌else◌, is_some, Ensures, Ensures-bind, Ensures-guard, Ensures-then,
  Ensures-ok, ok, Result-cases,
}
use agent_panel_x.State.{
  ready, in_progress, blocked, first_run_approval, ProjectRuntimeState, is_blocked, post_init,
}
use agent_panel_x.Delivery.Models.{queued, Stage, Milestone, MilestoneSnapshot, StageRun}
use agent_panel_x.Event.{RuntimeContextChangeReason}
use agent_panel_x.Runtime.{World, transition, publish}
use agent_panel_x.State.Validity.{post_init-identity}
use agent_panel_x.Runtime.Transition.{transition-moved}
use agent_panel_x.Delivery.StageRuns
use agent_panel_x.Delivery.Git.{Git}
use agent_panel_x.Delivery.Driver.{
  snapshot_for_context-id, assert_retryable_blocked, at_cursor, at_cursor-intro,
}
use agent_panel_x.Delivery.Driver.Queue.{
  MilestoneRunQueued, assert_queueable, queued_state, queued_event, queue_transaction, queue_run,
}

-- Which state a Run may be queued from: the first one waits for its approval, a retry is of a BLOCKED
-- delivery, and any other one needs an idle delivery that is rolling.
pub data MayQueue (first_run retry : Bool) (s : ProjectRuntimeState) : Type 0 where
  first :
      first_run ≡ true
      → s.status ≡ ready
      → s.pending_action ≡ some first_run_approval
      → s.rolling_started_at ≡ none
      → MayQueue first_run retry s
  again : first_run ≡ false → retry ≡ true → s.status ≡ blocked → MayQueue first_run retry s
  next :
      first_run ≡ false
      → retry ≡ false
      → s.status ≡ in_progress
      → is_some s.rolling_started_at ≡ true
      → s.pending_action ≡ none
      → s.current_run_id ≡ none
      → MayQueue first_run retry s

assert_queueable-MayQueue :
    (first_run retry blocked_approval : Bool) (failed_run : Option StageRun) (w : World)
    → assert_queueable first_run retry blocked_approval failed_run w ≡ ok tt
    → (is_some w.state.current_run_id && not retry) ≡ false
    → MayQueue first_run retry w.state
unfolding raising assert_queueable
assert_queueable-MayQueue true retry b f w h g =
    MayQueue.first refl (ground arith) (ground arith) (ground arith)
assert_queueable-MayQueue false true b f w h g =
    MayQueue.again refl refl (unfold assert_retryable_blocked in ground arith)
assert_queueable-MayQueue false false b f w h g =
    MayQueue.next refl refl (ground arith) (ground arith) (ground arith) (ground arith)

record Queued (first_run retry : Bool) (branch : String) (r : StageRun) (w : World)
    (updated : ProjectRuntimeState) (w' : World) : Type 0 where
  may : MayQueue first_run retry w.state
  free : w.state.current_candidate_commit_sha ≡ none
  table : StageRuns.insert r w.stage_runs ≡ ok w'.stage_runs
  at : updated ≡ queued_state first_run branch r w.state
  state : w'.state ≡ updated
  snapshots : w'.snapshots ≡ w.snapshots

queue_transaction-Queued :
    (snapshot : MilestoneSnapshot) (milestone : Milestone) (first_run retry blocked_approval : Bool)
    (failed_run : Option StageRun) (branch : String) (r : StageRun) (w w' : World)
    (updated : ProjectRuntimeState)
    → queue_transaction snapshot milestone first_run retry blocked_approval failed_run branch r w
      ≡ ok (updated, w')
    → Queued first_run retry branch r w updated w'
unfolding raising queue_transaction
queue_transaction-Queued snapshot milestone first_run retry blocked_approval failed_run branch r w
      w' updated h =
    elim (Result-cases (StageRuns.insert r w.stage_runs)) [
      | inl (rows, ins) ↦
          (let inside : World = record w { stage_runs = rows } in
            let q : assert_queueable first_run retry blocked_approval failed_run w ≡ ok tt =
              ground (arith, ins) in
            let g : (is_some w.state.current_run_id && not retry) ≡ false = ground (arith, ins) in
            let f : w.state.current_candidate_commit_sha ≡ none = ground (arith, ins) in
            let t : transition
                  (if first_run
                    then RuntimeContextChangeReason.first_run_started
                    else RuntimeContextChangeReason.milestone_run_queued)
                  (λ saved. post_init (queued_state first_run branch r saved)) inside
                ≡ ok (updated, w') =
              ground (arith, ins) in
            let (m, same, e) = transition-moved _ _ inside updated w' t in
            record {
              may = assert_queueable-MayQueue first_run retry blocked_approval failed_run w q g;
              free = f;
              table = rw e ins;
              at = post_init-identity _ m;
              state = ap (λ (v : World). v.state) e;
              snapshots = ap (λ (v : World). v.snapshots) e;
            })
      | inr (x, ins) ↦ absurd (ground (arith, ins))
    ]

-- What `queue_run` has done when it succeeds.
pub record QueuedRun (first_run : Bool) (current : ProjectRuntimeState) (w : World)
    (receipt : MilestoneRunQueued) (w' : World) : Type 0 where
  pub may : MayQueue first_run (not first_run && is_blocked current.status) w.state
  pub free : w.state.current_candidate_commit_sha ≡ none
  pub table : StageRuns.insert receipt.stage_run w.stage_runs ≡ ok w'.stage_runs
  pub waits : receipt.stage_run.status ≡ queued
  pub normal : receipt.stage_run.revision_of_stage_run_id ≡ none
  pub cursor : at_cursor w'.state receipt.stage_run ≡ true
  pub rolling : w'.state.status ≡ in_progress
  pub decided : w'.state.pending_action ≡ none
  pub no_candidate : w'.state.current_candidate_commit_sha ≡ none
  pub snapshots : w'.snapshots ≡ w.snapshots
  pub same_state : receipt.state ≡ w'.state

queued_receipt :
    (first_run : Bool) (branch : String) (current : ProjectRuntimeState)
    (snapshot : MilestoneSnapshot) (milestone : Milestone) (stage : Stage) (r built : StageRun)
    (w w' : World) (updated : ProjectRuntimeState)
    → Queued first_run (not first_run && is_blocked current.status) branch r w updated w'
    → r ≡ built
    → built.status ≡ queued
    → built.revision_of_stage_run_id ≡ none
    → w.state.current_snapshot_id ≡ some built.snapshot_id
    → QueuedRun first_run current w
        (record {
          state = updated;
          snapshot = snapshot;
          milestone = milestone;
          stage = stage;
          stage_run = r;
          first_run = first_run;
        })
        (publish (queued_event first_run updated r) w')
unfolding publish queued_state
queued_receipt first_run branch current snapshot milestone stage r built w w' updated q same waits
      normal at_snapshot =
    record {
      may = q.may;
      free = q.free;
      table = q.table;
      waits = ground (arith, same, waits);
      normal = ground (arith, same, normal);
      cursor =
          at_cursor-intro w'.state r (ground (arith, q.state, q.at))
            (ground (arith, q.state, q.at, same, at_snapshot)) (ground (arith, q.state, q.at))
            (ground (arith, q.state, q.at));
      rolling = ground (arith, q.state, q.at);
      decided = ground (arith, q.state, q.at);
      no_candidate = ground (arith, q.state, q.at);
      snapshots = q.snapshots;
      same_state = sym q.state;
    }

-- The Snapshot of the transaction is the one that the state names.
transaction_snapshot :
    (snapshot : MilestoneSnapshot) (milestone : Milestone) (first_run retry blocked_approval : Bool)
    (failed_run : Option StageRun) (branch : String) (r : StageRun) (w : World)
    → Ensures
        (queue_transaction snapshot milestone first_run retry blocked_approval failed_run branch r
          w)
        (λ _. w.state.current_snapshot_id ≡ some snapshot.snapshot_id)
unfolding queue_transaction
transaction_snapshot snapshot milestone first_run retry blocked_approval failed_run branch r w =
    Ensures-bind _ _ λ latest found. Ensures-bind _ _ λ latest_milestone _.
      Ensures-guard _ _ _ λ same. record {
        at = λ _ _. ground (
          arith,
          snapshot_for_context-id w.state w latest found,
          eq_iff latest.snapshot_id snapshot.snapshot_id,
          same,
        );
      }

queue_run-Ensures :
    (git : Git) (current : ProjectRuntimeState) (snapshot : MilestoneSnapshot)
    (milestone : Milestone) (first_run blocked_approval : Bool) (now : ℕ)
    (run_uuid stage_run_uuid : String) (w : World)
    → Ensures
        (queue_run git current snapshot milestone first_run blocked_approval now run_uuid
          stage_run_uuid w)
        (λ result. QueuedRun first_run current w result.0 result.1)
unfolding queue_run
queue_run-Ensures git current snapshot milestone first_run blocked_approval now run_uuid
      stage_run_uuid w =
    Ensures-then _ _ λ _. Ensures-bind _ _ λ branch _. Ensures-bind _ _ λ head _.
      Ensures-guard _ _ _ λ _. Ensures-bind _ _ λ failed_run _. Ensures-then _ _ λ _.
        Ensures-guard _ _ _ λ _. Ensures-guard _ _ _ λ _. Ensures-bind _ _ λ stage _.
          Ensures-bind _ _ λ r valid. Ensures-bind _ _ λ step queued_step. Ensures-ok _ _ (
            queued_receipt first_run branch current snapshot milestone stage r _ w step.1 step.0
              (queue_transaction-Queued snapshot milestone first_run
                (not first_run && is_blocked current.status) blocked_approval failed_run branch r w
                step.1 step.0 queued_step)
              (check_stage_run-identity _ r valid) refl refl
              ((transaction_snapshot snapshot milestone first_run
                  (not first_run && is_blocked current.status) blocked_approval failed_run branch r
                  w).at
                step queued_step))

-- A Run is queued only from a state that may queue one: the first one with its approval pending, a
-- retry from BLOCKED, any other from an idle rolling delivery, and never beside a Candidate. The queued
-- row is a normal run that the table accepted, the cursor of the new state is at it, and the new state is
-- IN_PROGRESS with no pending action and no Candidate.
pub queue_run-QueuedRun :
    (git : Git) (current : ProjectRuntimeState) (snapshot : MilestoneSnapshot)
    (milestone : Milestone) (first_run blocked_approval : Bool) (now : ℕ)
    (run_uuid stage_run_uuid : String) (w w' : World) (receipt : MilestoneRunQueued)
    → queue_run git current snapshot milestone first_run blocked_approval now run_uuid
        stage_run_uuid w
      ≡ ok (receipt, w')
    → QueuedRun first_run current w receipt w'
queue_run-QueuedRun git current snapshot milestone first_run blocked_approval now run_uuid
      stage_run_uuid w w' receipt h =
    (queue_run-Ensures git current snapshot milestone first_run blocked_approval now run_uuid
        stage_run_uuid w).at
      (receipt, w') h
