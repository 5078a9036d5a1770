-- ===== src/Delivery/Driver/Stages/Claim.antt =====
-- What the claim of a queued Stage does.
use agent_panel_x.Prelude.{
  ℕ, ◌≡◌, refl, ap, ◌∙◌, true, false, none, some, arith, ◌==◌, eq_iff, find, Ensures, Ensures-bind,
  Ensures-guard, Ensures-or_raise, Ensures-then, Ensures-ok, ok,
}
use agent_panel_x.State.{in_progress, ProjectRuntimeState}
use agent_panel_x.Delivery.Models.{Stage, StageRun, is_queued, is_revision}
use agent_panel_x.Runtime.{World, publish}
use agent_panel_x.Runtime.{publish}
use agent_panel_x.Delivery.StageRuns
use agent_panel_x.Delivery.StageRuns.{claimed}
use agent_panel_x.Delivery.StageRuns.Claim.{claim_next-claimed}
use agent_panel_x.Delivery.Driver.{at_cursor, snapshot_for_context, first_pending_milestone}
use agent_panel_x.Delivery.Driver.Contract.{StageContract, stage_contract}
use agent_panel_x.Delivery.Driver.Stages.{
  StageClaim, claim_next_stage, executor_session_stage_run_id,
}

-- What a Stage that may be executed satisfies.
pub record Executable (context : ProjectRuntimeState) (r : StageRun) (w : World)
    (contract : StageContract) : Type 0 where
  pub status : context.status ≡ in_progress
  pub undecided : context.pending_action ≡ none
  pub at : at_cursor context r ≡ true
  pub candidate : is_revision r ≡ false → context.current_candidate_commit_sha ≡ none
  pub snapshot : snapshot_for_context context w ≡ ok contract.snapshot
  pub first : first_pending_milestone contract.snapshot ≡ ok contract.milestone
  pub milestone : contract.milestone.key ≡ r.milestone_key
  pub stage :
      find (λ (s : Stage). s.key == r.stage_key) contract.milestone.stages ≡ some contract.stage

pub stage_contract-Executable :
    (context : ProjectRuntimeState) (r : StageRun) (w : World)
    → Ensures (stage_contract context r w) (Executable context r w)
unfolding stage_contract
stage_contract-Executable context r w = Ensures-guard _ _ _ λ active. Ensures-guard _ _ _ λ free.
    Ensures-guard _ _ _ λ here. Ensures-bind _ _ λ snapshot published.
      Ensures-bind _ _ λ milestone first. Ensures-guard _ _ _ λ same. Ensures-then _ _ λ _.
        Ensures-or_raise _ _ _ λ stage found. Ensures-ok _ _ (record {
          status = ground arith;
          undecided = ground arith;
          at = ground arith;
          candidate = λ normal. ground arith;
          snapshot = published;
          first = first;
          milestone = ground (arith, eq_iff milestone.key r.milestone_key);
          stage = found;
        })

-- What a claim has done.
pub record Claimed (w : World) (started_at lease_expires_at : ℕ) (c : StageClaim) (w' : World)
    : Type 0 where
  pub run : StageRun
  pub was_active : StageRuns.get_active w.state.triage_id w.stage_runs ≡ some run
  pub was_queued : is_queued run.status ≡ true
  pub row : c.stage_run ≡ claimed started_at lease_expires_at run
  pub active : StageRuns.get_active w.state.triage_id w'.stage_runs ≡ some c.stage_run
  pub executable : Executable w.state run w c.contract
  pub state : w'.state ≡ w.state
  pub session : executor_session_stage_run_id run w.stage_runs ≡ ok c.executor_session_stage_run_id

-- A claim takes the active StageRun of the project, which is queued and executable at the cursor of the
-- state: the row becomes RUNNING with the given lease and is the active one of the project afterwards,
-- and the state stays as it is.
pub claim_next_stage-Claimed :
    (started_at lease_expires_at : ℕ) (w w' : World) (c : StageClaim)
    → claim_next_stage started_at lease_expires_at w ≡ ok (c, w')
    → Claimed w started_at lease_expires_at c w'
unfolding claim_next_stage publish
claim_next_stage-Claimed started_at lease_expires_at w w' c h =
    let e : Ensures (claim_next_stage started_at lease_expires_at w)
        (λ result. Claimed w started_at lease_expires_at result.0 result.1) =
      Ensures-or_raise _ _ _ λ r active. Ensures-guard _ _ _ λ is_q.
        Ensures-bind _ _ λ contract accepted. Ensures-bind _ _ λ session walked.
          Ensures-bind _ _ λ row taken. Ensures-or_raise _ _ _ λ pair some_row.
            let (made, now_active) =
              claim_next-claimed w.state.triage_id started_at lease_expires_at w.stage_runs pair.1 r
                pair.0 active (ground arith) (taken ∙ ap ok some_row) in
            Ensures-ok _ _ (record {
              run = r;
              was_active = active;
              was_queued = ground arith;
              row = made;
              active = now_active;
              executable = (stage_contract-Executable w.state r w).at contract accepted;
              state = refl;
              session = walked;
            }) in
    e.at (c, w') h
