-- ===== src/Delivery/Service/Runs/Requests.antt =====
-- What a request for the next Run does, and how its rejection takes it back.
use agent_panel_x.Prelude.{
  ℕ, String, ◌≡◌, refl, sym, ap, ◌∙◌, Bool, true, false, Option, none, some, arith, if◌then◌else◌,
  is_none, is_some, Ensures, Ensures-bind, Ensures-guard, Ensures-then, Ensures-ok, raising, ok,
}
use agent_panel_x.State.{
  todo, ready, in_progress, blocked, PendingAction, first_run_approval, blocked_run_approval,
  ProjectRuntimeState, is_blocked, post_init,
}
use agent_panel_x.Delivery.Models.{Milestone, MilestoneSnapshot, StageRun}
use agent_panel_x.Runtime.{World, publish}
use agent_panel_x.Runtime.{publish}
use agent_panel_x.Runtime.Transition.{transition-moved}
use agent_panel_x.State.Validity.{post_init-identity}
use agent_panel_x.Delivery.Git.{Git}
use agent_panel_x.Delivery.Driver.{
  assert_retryable_blocked, Retryable, assert_retryable_blocked-Retryable,
}
use agent_panel_x.Delivery.Driver.Queue.{MilestoneRunQueued}
use agent_panel_x.Delivery.Driver.Queue.Receipt.{MayQueue, QueuedRun, queue_run-QueuedRun}
use agent_panel_x.Delivery.Service.Runs.{
  ApprovalRequested, NextMilestone, first_run_requested, blocked_run_requested, run_queued,
  request_first_run, request_first, request_retry, request_queue, request_next_milestone,
  reject_blocked_run, reject_first_run,
}

-- The three ends of a request: an approval of the first Run, an approval of a retry, or a queued Run.
pub data Requested (w : World) (result : NextMilestone) (w' : World) : Type 0 where
  first :
      (approval : ApprovalRequested)
      → result ≡ first_run_requested approval
      → w.state.rolling_started_at ≡ none
      → w.state.pending_action ≡ none
      → w'.state ≡ record w.state { status = ready; pending_action = some first_run_approval }
      → w'.stage_runs ≡ w.stage_runs
      → Requested w result w'
  retry :
      (approval : ApprovalRequested)
      → result ≡ blocked_run_requested approval
      → w.state.status ≡ blocked
      → w.state.pending_action ≡ none
      → (failed_run : StageRun) → Retryable w.state w failed_run
      → w'.state ≡ record w.state { pending_action = some blocked_run_approval }
      → w'.stage_runs ≡ w.stage_runs
      → Requested w result w'
  queueing :
      (receipt : MilestoneRunQueued)
      → result ≡ run_queued receipt
      → is_some w.state.rolling_started_at ≡ true
      → w.state.status ≡ in_progress
      → w.state.pending_action ≡ none
      → QueuedRun false w.state w receipt w'
      → Requested w result w'

request_first_run-at :
    (snapshot : MilestoneSnapshot) (s t : ProjectRuntimeState)
    → request_first_run snapshot s ≡ ok t
    → (t ≡ record s { status = ready; pending_action = some first_run_approval })
      × (s.rolling_started_at ≡ none)
      × (s.pending_action ≡ none)
unfolding raising request_first_run post_init
request_first_run-at snapshot s t h = (ground arith, ground arith, ground arith)

request_first-Requested :
    (snapshot : MilestoneSnapshot) (milestone : Milestone) (w : World)
    → Ensures (request_first w.state snapshot milestone w) (λ result. Requested w result.0 result.1)
unfolding request_first publish
request_first-Requested snapshot milestone w = Ensures-guard _ _ _ λ _. Ensures-guard _ _ _ λ _.
    Ensures-bind _ _ λ step moves.
      let (m, _, e) = transition-moved _ _ w step.0 step.1 moves in
      let (at, rolling, undecided) = request_first_run-at snapshot w.state step.0 m in
      Ensures-ok _ _
        (Requested.first _ refl rolling undecided (ground (arith, e, at)) (ground (arith, e)))

retry_undecided :
    (context : ProjectRuntimeState) (w : World) (r : StageRun)
    → assert_retryable_blocked false context w ≡ ok r
    → context.pending_action ≡ none
unfolding assert_retryable_blocked
retry_undecided context w r h =
    let e : Ensures (assert_retryable_blocked false context w)
        (λ _. context.pending_action ≡ none) =
      Ensures-guard _ _ _ λ open_guards. record { at = λ _ _. ground arith } in
    e.at r h

request_retry-Requested :
    (snapshot : MilestoneSnapshot) (milestone : Milestone) (w : World)
    → Ensures (request_retry w.state snapshot milestone w) (λ result. Requested w result.0 result.1)
unfolding request_retry publish
request_retry-Requested snapshot milestone w = Ensures-bind _ _ λ failed_run retryable.
    Ensures-bind _ _ λ step moves.
      let (m, _, e) = transition-moved _ _ w step.0 step.1 moves in
      let at = post_init-identity _ m in
      let r : Retryable w.state w failed_run =
        (assert_retryable_blocked-Retryable false w.state w).at failed_run retryable in
      Ensures-ok _ _ (
        Requested.retry _ refl r.status (retry_undecided w.state w failed_run retryable) failed_run
          r (ground (arith, e, at)) (ground (arith, e)))

queueing_from :
    (w w' : World) (receipt : MilestoneRunQueued)
    → is_none w.state.rolling_started_at ≡ false
    → is_blocked w.state.status ≡ false
    → MayQueue false (is_blocked w.state.status) w.state
    → QueuedRun false w.state w receipt w'
    → Requested w (run_queued receipt) w'
queueing_from w w' receipt rolling free (MayQueue.first unasked _ _ _) q = absurd (ground arith)
queueing_from w w' receipt rolling free (MayQueue.again _ stuck _) q = absurd (ground arith)
queueing_from w w' receipt rolling free (MayQueue.next _ _ active _ undecided _) q =
    Requested.queueing receipt refl (ground arith) active undecided q

request_queue-Requested :
    (git : Git) (snapshot : MilestoneSnapshot) (milestone : Milestone) (now : ℕ)
    (run_uuid stage_run_uuid : String) (w : World)
    → is_none w.state.rolling_started_at ≡ false
    → is_blocked w.state.status ≡ false
    → Ensures
        (request_queue git w.state snapshot milestone now run_uuid stage_run_uuid w)
        (λ result. Requested w result.0 result.1)
unfolding request_queue
request_queue-Requested git snapshot milestone now run_uuid stage_run_uuid w rolling free =
    Ensures-bind _ _ λ step queued_step.
      let q : QueuedRun false w.state w step.0 step.1 =
        queue_run-QueuedRun git w.state snapshot milestone false false now run_uuid stage_run_uuid w
          step.1 step.0 queued_step in
      Ensures-ok _ _ (queueing_from w step.1 step.0 rolling free q.may q)

request_as :
    (git : Git) (snapshot : MilestoneSnapshot) (milestone : Milestone) (now : ℕ)
    (run_uuid stage_run_uuid : String) (w : World) (unstarted stuck : Bool)
    → is_none w.state.rolling_started_at ≡ unstarted
    → is_blocked w.state.status ≡ stuck
    → Ensures
        (if unstarted
          then request_first w.state snapshot milestone w
          else if stuck
          then request_retry w.state snapshot milestone w
          else request_queue git w.state snapshot milestone now run_uuid stage_run_uuid w)
        (λ result. Requested w result.0 result.1)
request_as git snapshot milestone now run_uuid stage_run_uuid w true stuck u s =
    request_first-Requested snapshot milestone w
request_as git snapshot milestone now run_uuid stage_run_uuid w false true u s =
    request_retry-Requested snapshot milestone w
request_as git snapshot milestone now run_uuid stage_run_uuid w false false u s =
    request_queue-Requested git snapshot milestone now run_uuid stage_run_uuid w u s

-- A request for the next Milestone has one of three ends. A delivery that has not started rolling only
-- asks for the approval of its first Run, and a BLOCKED one, which must be a retryable failure, only for
-- the approval of a retry: no StageRun is stored. Only an IN_PROGRESS delivery with no pending action
-- queues a Run.
pub request_next_milestone-Requested :
    (git : Git) (now : ℕ) (run_uuid stage_run_uuid : String) (w w' : World) (result : NextMilestone)
    → request_next_milestone git now run_uuid stage_run_uuid w ≡ ok (result, w')
    → Requested w result w'
unfolding request_next_milestone
request_next_milestone-Requested git now run_uuid stage_run_uuid w w' result h =
    (Ensures-bind _ _ λ snapshot _. Ensures-bind _ _ λ milestone _.
        Ensures-then _ _
          λ _. request_as git snapshot milestone now run_uuid stage_run_uuid w _ _ refl refl).at
      (result, w') h

reject_blocked_run-at :
    (feedback : String) (w : World)
    → Ensures (reject_blocked_run feedback w) (λ result.
      (result.1.state ≡ record w.state { pending_action = none })
      × (result.1.stage_runs ≡ w.stage_runs))
unfolding reject_blocked_run publish
reject_blocked_run-at feedback w = Ensures-guard _ _ _ λ _. Ensures-guard _ _ _ λ _.
    Ensures-bind _ _ λ step moves.
      let (m, _, e) = transition-moved _ _ w step.0 step.1 moves in
      let at = post_init-identity _ m in Ensures-ok _ _ (ground (arith, e, at), ground (arith, e))

reject_first_run-at :
    (feedback : String) (w : World)
    → Ensures (reject_first_run feedback w) (λ result.
      (result.1.state ≡ record w.state { status = todo; pending_action = none })
      × (result.1.stage_runs ≡ w.stage_runs))
unfolding reject_first_run publish
reject_first_run-at feedback w = Ensures-guard _ _ _ λ _. Ensures-guard _ _ _ λ _.
    Ensures-bind _ _ λ step moves.
      let (m, _, e) = transition-moved _ _ w step.0 step.1 moves in
      let at = post_init-identity _ m in Ensures-ok _ _ (ground (arith, e, at), ground (arith, e))

undone_retry :
    (w w' w'' : World) (approval : ApprovalRequested)
    → Requested w (blocked_run_requested approval) w'
    → w''.state ≡ record w'.state { pending_action = none }
    → w''.stage_runs ≡ w'.stage_runs
    → (w''.state ≡ w.state) × (w''.stage_runs ≡ w.stage_runs)
undone_retry w w' w'' approval (Requested.first _ e _ _ _ _) s t = cc
undone_retry w w' w'' approval (Requested.retry _ _ _ undecided _ _ at rows) s t = (
  s ∙ ap (λ (x : ProjectRuntimeState). record x { pending_action = none }) at ∙ restored,
  t ∙ rows,
)
  where
    restored : record w.state { pending_action = none } ≡ w.state
    restored =
        ap (λ (p : Option PendingAction). record w.state { pending_action = p }) (sym undecided)
undone_retry w w' w'' approval (Requested.queueing _ e _ _ _ _) s t = cc

-- Rejecting the retry that a BLOCKED delivery asked for puts the project back exactly where it was.
pub request-reject_blocked_run :
    (git : Git) (now : ℕ) (run_uuid stage_run_uuid feedback : String) (w w' w'' : World)
    (approval : ApprovalRequested) (updated : ProjectRuntimeState)
    → request_next_milestone git now run_uuid stage_run_uuid w
      ≡ ok (blocked_run_requested approval, w')
    → reject_blocked_run feedback w' ≡ ok (updated, w'')
    → (w''.state ≡ w.state) × (w''.stage_runs ≡ w.stage_runs)
request-reject_blocked_run git now run_uuid stage_run_uuid feedback w w' w'' approval updated h r =
    let (s, t) = (reject_blocked_run-at feedback w').at (updated, w'') r in
    undone_retry w w' w'' approval
      (request_next_milestone-Requested git now run_uuid stage_run_uuid w w'
        (blocked_run_requested approval) h)
      s t

undone_first :
    (w w' w'' : World) (approval : ApprovalRequested)
    → Requested w (first_run_requested approval) w'
    → w''.state ≡ record w'.state { status = todo; pending_action = none }
    → w''.stage_runs ≡ w'.stage_runs
    → (w''.state ≡ record w.state { status = todo }) × (w''.stage_runs ≡ w.stage_runs)
undone_first w w' w'' approval (Requested.first _ _ _ undecided at rows) s t =
    (ground (arith, s, at, undecided), t ∙ rows)
undone_first w w' w'' approval (Requested.retry _ e _ _ _ _ _ _) s t = cc
undone_first w w' w'' approval (Requested.queueing _ e _ _ _ _) s t = cc

-- Rejecting the first Run puts the project in TODO and everything else back where it was when the Run
-- was requested.
pub request-reject_first_run :
    (git : Git) (now : ℕ) (run_uuid stage_run_uuid feedback : String) (w w' w'' : World)
    (approval : ApprovalRequested) (updated : ProjectRuntimeState)
    → request_next_milestone git now run_uuid stage_run_uuid w
      ≡ ok (first_run_requested approval, w')
    → reject_first_run feedback w' ≡ ok (updated, w'')
    → (w''.state ≡ record w.state { status = todo }) × (w''.stage_runs ≡ w.stage_runs)
request-reject_first_run git now run_uuid stage_run_uuid feedback w w' w'' approval updated h r =
    let (s, t) = (reject_first_run-at feedback w').at (updated, w'') r in
    undone_first w w' w'' approval
      (request_next_milestone-Requested git now run_uuid stage_run_uuid w w'
        (first_run_requested approval) h)
      s t
