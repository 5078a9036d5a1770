-- ===== src/Delivery/Driver/Candidate/Contract.antt =====
-- What a Candidate that passes its contract is.
use agent_panel_x.Prelude.{
  String, ◌≡◌, refl, inl, inr, true, false, none, some, arith, Option-cases, opt_eq_iff, any,
  Ensures, Ensures-bind, Ensures-guard, Ensures-or_raise, Ensures-ok, raising, ok,
}
use agent_panel_x.State.{ProjectRuntimeState}
use agent_panel_x.Delivery.Models.{CandidateIdentity, Milestone, MilestoneSnapshot}
use agent_panel_x.Runtime.{World}
use agent_panel_x.Delivery.StageRuns.{list_by_run_id}
use agent_panel_x.Delivery.Snapshot.{first_pending}
use agent_panel_x.Delivery.Driver.{snapshot_for_context, first_pending_milestone}
use agent_panel_x.Delivery.Driver.Candidate.{
  CandidateContract, candidate_contract, candidate_chain, at_candidate, running_revision,
}

first_pending_milestone-some :
    (s : MilestoneSnapshot) (m : Milestone)
    → first_pending_milestone s ≡ ok m
    → first_pending s ≡ some m
unfolding raising first_pending_milestone
first_pending_milestone-some s m h = elim (Option-cases (first_pending s)) [
  | inl e ↦ absurd (ground (arith, e))
  | inr (x, e) ↦ ground (arith, e)
]

at_candidate-current :
    (context : ProjectRuntimeState) (expected : CandidateIdentity)
    → at_candidate context expected ≡ true
    → context.current_candidate_commit_sha ≡ some expected.candidate_commit_sha
unfolding raising at_candidate
at_candidate-current context expected h =
    ground
      (arith, opt_eq_iff context.current_candidate_commit_sha (some expected.candidate_commit_sha))

-- What the contract of a Candidate says of the state and of the rows of its Run.
pub record Contracted (context : ProjectRuntimeState) (expected : CandidateIdentity) (w : World)
    (contract : CandidateContract) : Type 0 where
  pub snapshot : snapshot_for_context context w ≡ ok contract.snapshot
  pub milestone : first_pending contract.snapshot ≡ some contract.milestone
  pub named : contract.candidate ≡ expected.candidate_commit_sha
  pub current : context.current_candidate_commit_sha ≡ some expected.candidate_commit_sha
  pub undecided : context.pending_action ≡ none
  pub baseline : String
  pub at_baseline : context.git_main_version ≡ some baseline
  pub no_revision : any running_revision (list_by_run_id expected.run_id w.stage_runs) ≡ false
  pub chain :
      candidate_chain baseline expected.candidate_commit_sha
        (list_by_run_id expected.run_id w.stage_runs)
        contract.milestone.stages
      ≡ ok contract.final_run

pub candidate_contract-Contracted :
    (context : ProjectRuntimeState) (expected : CandidateIdentity) (w : World)
    → Ensures (candidate_contract context expected w) (Contracted context expected w)
unfolding candidate_contract
candidate_contract-Contracted context expected w = Ensures-guard _ _ _ λ active.
    Ensures-guard _ _ _ λ stale. Ensures-or_raise _ _ _ λ baseline at_baseline.
      Ensures-bind _ _ λ snapshot published. Ensures-bind _ _ λ milestone first.
        Ensures-guard _ _ _ λ _. Ensures-guard _ _ _ λ _. Ensures-guard _ _ _ λ _.
          Ensures-guard _ _ _ λ still. Ensures-bind _ _ λ final_run chained.
            Ensures-ok _ _ (record {
              snapshot = published;
              milestone = first_pending_milestone-some snapshot milestone first;
              named = refl;
              current = at_candidate-current context expected (ground arith);
              undecided = ground arith;
              baseline = baseline;
              at_baseline = at_baseline;
              no_revision = still;
              chain = chained;
            })
