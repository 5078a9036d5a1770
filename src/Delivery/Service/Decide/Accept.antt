-- ===== src/Delivery/Service/Decide/Accept.antt =====
-- What accepting a Candidate does.
use agent_panel_x.Prelude.{
  [], ℕ, ◌≤◌, String, ◌≡◌, refl, sym, ap, ◌∙◌, ◌↔◌, inl, inr, Bool, true, false, none, some, List,
  ◌∷◌, arith, eq_iff, if◌then◌else◌, Option-cases, is_none, find, count, Ensures, Ensures-bind,
  Ensures-guard, Ensures-then, Ensures-ok, normalize, raising, ok,
}
use agent_panel_x.State.{in_progress, done, ProjectRuntimeState, post_init}
use agent_panel_x.Delivery.Models.{
  CandidateIdentity, Milestone, MilestoneSnapshot, is_pending, check_snapshot,
}
use agent_panel_x.Event.{ExecutionEvent, ExecutionEventType}
use agent_panel_x.Runtime.{World, publish}
use agent_panel_x.Runtime.{publish}
use agent_panel_x.Runtime.Transition.{transition-moved}
use agent_panel_x.Delivery.Snapshot
use agent_panel_x.Delivery.Snapshot.{first_pending, with_completed_milestone}
use agent_panel_x.Delivery.Snapshot.Completion.{with_completed_milestone_keeps}
use agent_panel_x.Delivery.Git.{Git}
use agent_panel_x.Delivery.Driver.{snapshot_for_context}
use agent_panel_x.Delivery.Driver.Candidate.{CandidateContract}
use agent_panel_x.Delivery.Driver.Candidate.Contract.{Contracted, candidate_contract-Contracted}
use agent_panel_x.Delivery.Service.Target.{
  Integrate, assert_candidate_target, integrate_candidate, head_allowed,
}
use agent_panel_x.Delivery.Service.Decide.{
  CandidateDecision, accept, accept_candidate, recheck, completed_event, decided_event,
}
use agent_panel_x.Delivery.Service.Decide.Branches.{
  publish_if, accept_branch, decide_as, decide_milestone_candidate,
}

-- What an accepted Candidate leaves: the successor Snapshot, in which the Milestone is completed, is
-- published, the target is fixed at the Candidate, and the cursor is cleared.
pub record Accepted (w : World) (expected : CandidateIdentity) (d : CandidateDecision) (w' : World)
    : Type 0 where
  pub snapshot : MilestoneSnapshot
  pub milestone : Milestone
  pub successor : MilestoneSnapshot
  pub snapshot_uuid : String
  pub reason : String
  pub now : ℕ
  pub current : snapshot_for_context w.state w ≡ ok snapshot
  pub first : first_pending snapshot ≡ some milestone
  pub completes :
      with_completed_milestone snapshot milestone.key snapshot_uuid reason w.owner_message_id now
      ≡ ok successor
  pub table : Snapshot.insert successor w.snapshots ≡ ok w'.snapshots
  pub state : w'.state ≡ record w.state {
    status = if is_none (first_pending successor) then done else in_progress;
    git_main_version = some expected.candidate_commit_sha;
    current_snapshot_id = some successor.snapshot_id;
    current_run_id = none;
    current_milestone_key = none;
    current_stage_key = none;
    current_candidate_commit_sha = none;
  }
  pub rows : w'.stage_runs ≡ w.stage_runs
  pub finished : d.completed ≡ is_none (first_pending successor)
  pub result : d.result_snapshot_id ≡ successor.snapshot_id

assert_candidate_target-head :
    (git : Git) (context : ProjectRuntimeState) (expected : CandidateIdentity)
    → Ensures
        (assert_candidate_target git context expected (some true))
        (λ head. head ≡ expected.candidate_commit_sha)
unfolding assert_candidate_target head_allowed
assert_candidate_target-head git context expected = Ensures-guard _ _ _ λ _. Ensures-then _ _ λ _.
    Ensures-bind _ _ λ branch _. Ensures-guard _ _ _ λ _. Ensures-bind _ _ λ head _.
      Ensures-guard _ _ _ λ allowed.
        Ensures-ok (λ h. h ≡ expected.candidate_commit_sha) head
          (ground (arith, eq_iff head expected.candidate_commit_sha))

integrate_candidate-head :
    (git : Git) (integrate : Integrate) (context : ProjectRuntimeState)
    (expected : CandidateIdentity)
    → Ensures
        (integrate_candidate git integrate context expected)
        (λ head. head ≡ expected.candidate_commit_sha)
unfolding integrate_candidate
integrate_candidate-head git integrate context expected = Ensures-bind _ _ λ head _.
    Ensures-bind _ _
      λ git' _. Ensures-then _ _ λ _. assert_candidate_target-head git' context expected

accept_candidate-at :
    (candidate : String) (successor : MilestoneSnapshot) (finished : Bool) (integrated : String)
    (s t : ProjectRuntimeState)
    → accept_candidate candidate successor finished integrated s ≡ ok t
    → t ≡ record s {
      status = if finished then done else in_progress;
      git_main_version = some integrated;
      current_snapshot_id = some successor.snapshot_id;
      current_run_id = none;
      current_milestone_key = none;
      current_stage_key = none;
      current_candidate_commit_sha = none;
    }
unfolding raising accept_candidate post_init
accept_candidate-at candidate successor finished integrated s t h = ground arith

publish_if-state :
    (b : Bool) (event : ExecutionEvent) (w : World)
    → ((publish_if b event w).state ≡ w.state)
      × ((publish_if b event w).snapshots ≡ w.snapshots)
      × ((publish_if b event w).stage_runs ≡ w.stage_runs)
unfolding publish_if publish
publish_if-state true event w = (refl, refl, refl)
publish_if-state false event w = (refl, refl, refl)

pub recheck-Contracted :
    (contract : CandidateContract) (expected : CandidateIdentity) (w : World)
    → Ensures (recheck contract expected w) (Contracted w.state expected w)
unfolding recheck
recheck-Contracted contract expected w = Ensures-bind _ _ λ latest loaded.
    Ensures-guard _ _ _
      λ _. Ensures-ok _ _ ((candidate_contract-Contracted w.state expected w).at latest loaded)

accept_branch-Accepted :
    (git : Git) (integrate : Integrate) (contract : CandidateContract)
    (expected : CandidateIdentity) (reason snapshot_uuid : String) (now : ℕ) (w : World)
    → Ensures
        (accept_branch git integrate contract expected reason snapshot_uuid now w)
        (λ result. Accepted w expected result.0 result.1)
unfolding accept_branch publish
accept_branch-Accepted git integrate contract expected reason snapshot_uuid now w =
    Ensures-then _ _ λ _. Ensures-bind _ _ λ head integrated. Ensures-bind _ _ λ latest again.
      Ensures-bind _ _ λ successor completes. Ensures-bind _ _ λ table inserted.
        Ensures-bind _ _ λ step moves.
          let (m, _, e) =
            transition-moved _ _ (record w { snapshots = table }) step.0 step.1 moves in
          let c : Contracted w.state expected w latest =
            (recheck-Contracted contract expected w).at latest again in
          let at = accept_candidate-at _ successor _ head w.state step.0 m in
          let there : head ≡ expected.candidate_commit_sha =
            (integrate_candidate-head git integrate w.state expected).at head integrated in
          let (kept, tables, rows) =
            publish_if-state (is_none (first_pending successor))
              (completed_event step.0 contract.candidate)
              (publish
                (decided_event ExecutionEventType.candidate_accepted step.0 expected
                  successor.snapshot_id reason)
                step.1) in
          Ensures-ok _ _ (record {
            snapshot = latest.snapshot;
            milestone = latest.milestone;
            successor = successor;
            snapshot_uuid = snapshot_uuid;
            reason = reason;
            now = now;
            current = c.snapshot;
            first = c.milestone;
            completes = completes;
            table = ground (arith, inserted, tables, e);
            state = ground (arith, kept, e, at, there);
            rows = ground (arith, rows, e);
            finished = refl;
            result = refl;
          })

-- When the Owner accepts a Candidate, the first pending Milestone of the current Snapshot is completed
-- in a successor Snapshot, which is stored and becomes the current one; the target commit is the
-- Candidate; the delivery cursor and the Candidate are cleared; and the project is DONE if the
-- successor has no pending Milestone and IN_PROGRESS otherwise. The StageRuns stay as they are.
pub decide_accept-Accepted :
    (git : Git) (integrate : Integrate) (expected : CandidateIdentity)
    (reason snapshot_uuid stage_run_uuid : String) (now : ℕ) (w w' : World) (d : CandidateDecision)
    → decide_milestone_candidate git integrate expected accept reason snapshot_uuid stage_run_uuid
        now w
      ≡ ok (d, w')
    → Accepted w expected d w'
unfolding decide_milestone_candidate decide_as
decide_accept-Accepted git integrate expected reason snapshot_uuid stage_run_uuid now w w' d h =
    (Ensures-guard _ _ _ λ _. Ensures-bind _ _ λ contract _. Ensures-then _ _ λ _.
        accept_branch-Accepted git integrate contract expected (normalize reason) snapshot_uuid now
          w).at
      (d, w') h

count-none : (ms : List Milestone) → find is_pending ms ≡ none → count is_pending ms ≡ 0
count-none [] h = refl
count-none (m ∷ ms) h = ground (arith, count-none ms)

count-some :
    (ms : List Milestone) (m : Milestone) → find is_pending ms ≡ some m → 1 ≤ count is_pending ms
count-some [] m h = cc
count-some (x ∷ ms) m h = ground (arith, count-some ms m)

-- Accepting a Candidate ends the development exactly when its Milestone was the only pending one of
-- the current Snapshot. (The current Snapshot is one that passes its own checks.)
pub decide_accept-done :
    (git : Git) (integrate : Integrate) (expected : CandidateIdentity)
    (reason snapshot_uuid stage_run_uuid : String) (now : ℕ) (w w' : World) (d : CandidateDecision)
    (snapshot : MilestoneSnapshot)
    → snapshot_for_context w.state w ≡ ok snapshot
    → check_snapshot snapshot ≡ ok snapshot
    → decide_milestone_candidate git integrate expected accept reason snapshot_uuid stage_run_uuid
        now w
      ≡ ok (d, w')
    → (w'.state.status ≡ done) ↔ (count is_pending snapshot.milestones ≡ 1)
unfolding first_pending
decide_accept-done git integrate expected reason snapshot_uuid stage_run_uuid now w w' d snapshot
      current valid h =
    let a : Accepted w expected d w' =
      decide_accept-Accepted git integrate expected reason snapshot_uuid stage_run_uuid now w w' d
        h in
    let same : a.snapshot ≡ snapshot = ground (arith, a.current, current) in
    let keeps =
      with_completed_milestone_keeps snapshot a.successor a.milestone.key a.snapshot_uuid a.reason
        w.owner_message_id a.now valid
        (ap
            (λ (s : MilestoneSnapshot).
              with_completed_milestone s a.milestone.key a.snapshot_uuid a.reason w.owner_message_id
                a.now)
            (sym same)
          ∙ a.completes) in
    elim (Option-cases (find is_pending a.successor.milestones)) [
      | inl e ↦ ground (arith, a.state, keeps, count-none a.successor.milestones e, e)
      | inr (m, e) ↦ ground (arith, a.state, keeps, count-some a.successor.milestones m e, e)
    ]
