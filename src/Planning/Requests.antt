-- ===== src/Planning/Requests.antt =====
-- What the request of a Plan approval does.
use agent_panel_x.Prelude.{
  String, ◌≡◌, refl, ◌∙◌, inl, inr, Bool, true, false, Option, none, some, arith, if◌then◌else◌,
  Bool-cases, Ensures, Ensures-bind, Ensures-guard, Ensures-then, Ensures-ok, raising, Result, ok,
  err,
}
use agent_panel_x.State.{
  is_triage, todo, plan_approval, ProjectRuntimeState, is_in_progress, post_init,
}
use agent_panel_x.Runtime.{World, publish}
use agent_panel_x.Runtime.{settle}
use agent_panel_x.Runtime.Transition.{transition-moved}
use agent_panel_x.Planning.{
  PlanRepository, PlanHardGate, PlanReviewResult, assert_requestable, plan_gate_outcome,
  run_hard_gate, PlanApprovalRequest, request_plan, plan_revises, finish_request, requested_subject,
  plan_reviewed, request_subject, request_plan_approval,
}
use agent_panel_x.Planning.Approval.{PlanDecision, reject_plan}
use agent_panel_x.Planning.Decisions.{reject_plan-cleared}

-- The two ends of a request that returns: the approval is pending for the digest, or the Hard Gate asked
-- for changes and the state is as it was.
pub data PlanRequested (w : World) (a : PlanApprovalRequest) (w' : World) : Type 0 where
  waiting :
      a.accepted ≡ true
      → plan_revises a.review ≡ false
      → w.state.pending_action ≡ none
      → w'.state ≡ record w.state {
        status = if is_triage w.state.status then todo else w.state.status;
        pending_action = some plan_approval;
        pending_plan_subject_digest = some a.subject_digest;
      }
      → PlanRequested w a w'
  refused :
      a.accepted ≡ false → plan_revises a.review ≡ true → w'.state ≡ w.state → PlanRequested w a w'

request_plan-at :
    (digest : String) (s t : ProjectRuntimeState)
    → request_plan digest s ≡ ok t
    → (t ≡ record s {
      status = if is_triage s.status then todo else s.status;
      pending_action = some plan_approval;
      pending_plan_subject_digest = some digest;
    })
      × (s.pending_action ≡ none)
unfolding raising request_plan assert_requestable post_init
request_plan-at digest s t h = (ground arith, ground arith)

finish_request-as :
    (repository : PlanRepository) (digest : String) (review : Option PlanReviewResult) (w : World)
    (answer : Bool)
    → plan_revises review ≡ answer
    → Ensures
        (finish_request repository digest review w)
        (λ result. PlanRequested w result.0 result.1)
unfolding finish_request publish
finish_request-as repository digest review w true answer = Ensures-then _ _ λ _.
    Ensures-bind _ _ λ again _.
      Ensures-guard _ _ _ λ _. rw answer (Ensures-ok _ _ (PlanRequested.refused refl answer refl))
finish_request-as repository digest review w false answer = Ensures-then _ _ λ _.
    Ensures-bind _ _ λ again _. Ensures-guard _ _ _ λ _. rw answer (
      Ensures-bind _ _ λ step moves.
        let (m, _, e) = transition-moved _ _ w step.0 step.1 moves in
        let (at, free) = request_plan-at digest w.state step.0 m in
        Ensures-ok _ _ (PlanRequested.waiting refl answer free (ground (arith, e, at))))

settled-ok :
    (r : Result (PlanApprovalRequest × World)) (w w' : World) (a : PlanApprovalRequest)
    → settle r w ≡ (ok a, w')
    → r ≡ ok (a, w')
settled-ok (ok (b, v)) w w' a h = cc
settled-ok (err e) w w' a h = cc

-- A gate that only reads.
pub record KeepsState (gate : PlanHardGate) : Type 0 where
  pub same : (digest : String) (w : World) → (gate digest w).1.state ≡ w.state

plan_gate_outcome-state :
    (t digest : String) (answer : Result PlanReviewResult) (w : World)
    → (plan_gate_outcome t digest answer w).1.state ≡ w.state
unfolding plan_gate_outcome publish
plan_gate_outcome-state t digest (ok r) w = refl
plan_gate_outcome-state t digest (err e) w = refl

run_hard_gate-state :
    (gate : PlanHardGate) (t digest : String) (w : World)
    → KeepsState gate
    → (run_hard_gate gate t digest w).1.state ≡ w.state
unfolding run_hard_gate publish
run_hard_gate-state gate t digest w keeps =
    plan_gate_outcome-state t digest _ _ ∙ keeps.same digest (publish _ w)

PlanRequested-same :
    (v w : World) (a : PlanApprovalRequest) (w' : World)
    → v.state ≡ w.state
    → PlanRequested v a w'
    → PlanRequested w a w'
PlanRequested-same v w a w' same (PlanRequested.waiting x y z s) =
    PlanRequested.waiting x y (ground (arith, z, same)) (ground (arith, s, same))
PlanRequested-same v w a w' same (PlanRequested.refused x y s) =
    PlanRequested.refused x y (s ∙ same)

plan_reviewed-Requested :
    (repository : PlanRepository) (digest : String) (answer : Result PlanReviewResult)
    (v w w' : World) (a : PlanApprovalRequest)
    → v.state ≡ w.state
    → plan_reviewed repository digest answer v ≡ (ok a, w')
    → PlanRequested w a w'
unfolding plan_reviewed
plan_reviewed-Requested repository digest (err e) v w w' a same h = cc
plan_reviewed-Requested repository digest (ok review) v w w' a same h =
    PlanRequested-same v w a w' same (
      (finish_request-as repository digest (some review) v _ refl).at (a, w')
        (settled-ok _ v w' a h))

request_subject-Requested :
    (repository : PlanRepository) (gate : PlanHardGate) (subject : Result String) (w w' : World)
    (a : PlanApprovalRequest)
    → KeepsState gate
    → request_subject repository gate subject w ≡ (ok a, w')
    → PlanRequested w a w'
unfolding request_subject
request_subject-Requested repository gate (err e) w w' a keeps h = cc
request_subject-Requested repository gate (ok digest) w w' a keeps h =
    elim (Bool-cases (is_in_progress w.state.status)) [
      | inl active ↦
          plan_reviewed-Requested repository digest _ _ w w' a
            (run_hard_gate-state gate w.state.triage_id digest w keeps) (rw active at h)
      | inr not_active ↦
          (finish_request-as repository digest none w _ refl).at (a, w')
            (settled-ok _ w w' a (rw not_active at h))
    ]

-- A request of a Plan approval that returns leaves the approval pending for the digest that it reports,
-- in a project that waited for nothing; or the Hard Gate asked for changes and the state is as it was.
-- (The gate keeps the state.)
pub request_plan_approval-PlanRequested :
    (before after : PlanRepository) (gate : PlanHardGate) (w w' : World) (a : PlanApprovalRequest)
    → KeepsState gate
    → request_plan_approval before after gate w ≡ (ok a, w')
    → PlanRequested w a w'
unfolding request_plan_approval
request_plan_approval-PlanRequested before after gate w w' a keeps h =
    request_subject-Requested after gate (requested_subject before w) w w' a keeps h

undone :
    (w w' : World) (a : PlanApprovalRequest)
    → PlanRequested w a w'
    → w.state.pending_plan_subject_digest ≡ none
    → a.accepted ≡ true
    → record w'.state { pending_action = none; pending_plan_subject_digest = none }
      ≡ record w.state { status = if is_triage w.state.status then todo else w.state.status }
undone w w' a (PlanRequested.waiting _ _ free at) no_digest accepted =
    ground (arith, at, free, no_digest)
undone w w' a (PlanRequested.refused not_accepted _ _) no_digest accepted = absurd (ground arith)

-- Rejecting a Plan whose approval was requested puts the state back where it was, but that a project in
-- TRIAGE is in TODO. (No digest was pending, and the gate keeps the state.)
pub request-reject_plan :
    (before after : PlanRepository) (gate : PlanHardGate) (feedback message_id : String)
    (w w' w'' : World) (a : PlanApprovalRequest) (d : PlanDecision)
    → KeepsState gate
    → w.state.pending_plan_subject_digest ≡ none
    → request_plan_approval before after gate w ≡ (ok a, w')
    → a.accepted ≡ true
    → reject_plan feedback message_id w' ≡ ok (d, w'')
    → w''.state
      ≡ record w.state { status = if is_triage w.state.status then todo else w.state.status }
request-reject_plan before after gate feedback message_id w w' w'' a d keeps no_digest h accepted
      r =
    (reject_plan-cleared feedback message_id w' w'' d r).0
    ∙ undone w w' a (request_plan_approval-PlanRequested before after gate w w' a keeps h) no_digest
        accepted
