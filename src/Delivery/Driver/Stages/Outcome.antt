-- ===== src/Delivery/Driver/Stages/Outcome.antt =====
-- What the end of a Stage leaves in the store.
use agent_panel_x.Delivery.Driver.Stages.Claim.{Executable, stage_contract-Executable}
use mathlib.Core.Path.{subst}
use agent_panel_x.Delivery.Driver.Stages.Following.{Follows, next_stage-Follows}
use agent_panel_x.Prelude.{
  [], eq_iff, find-holds, ◌==◌, ℕ, ◌≤◌, String, ◌≡◌, sym, ap, ◌∙◌, Bool, true, false, Option, none,
  some, List, ◌∷◌, arith, if◌then◌else◌, find, count, Ensures, Ensures-bind, Ensures-guard,
  Ensures-or_raise, Ensures-ok, normalize, raising, ok,
}
use agent_panel_x.State.{blocked, ProjectRuntimeState, post_init}
use agent_panel_x.Delivery.Models.{failed, Stage, StageRun, is_running, is_revision}
use agent_panel_x.Runtime.{World, submit_owner_input}
use agent_panel_x.Delivery.Driver.Contract.{StageContract, stage_failed}
use agent_panel_x.Runtime.Transition.{transition-moved}
use agent_panel_x.Delivery.StageRuns
use agent_panel_x.Table.{update_first}
use agent_panel_x.Delivery.StageRuns.Rows.{running_with_id, finish-found}
use agent_panel_x.Delivery.Driver.{at_cursor, assert_current_stage}
use agent_panel_x.Delivery.Driver.Stages.{
  StageCompletion, succeed_stage, submit_revision_failure, fail_stage,
}
use agent_panel_x.Delivery.Driver.Stages.Continued.{Continued, continue_run-Continued, marked_rows}

stage_failed-at :
    (r : StageRun) (s t : ProjectRuntimeState)
    → stage_failed r s ≡ ok t
    → (t ≡ (if is_revision r then s else record s { status = blocked })) × (at_cursor s r ≡ true)
unfolding raising stage_failed assert_current_stage post_init
stage_failed-at r s t h = (ground arith, ground arith)

-- What a Stage that succeeds has done: its row was executable at the cursor, the table has its result,
-- and the Run continues with what follows it in the Milestone.
pub record Succeeded (w : World) (stage_run_id output : String) (finished_at : ℕ)
    (c : StageCompletion) (w' : World) : Type 0 where
  pub run : StageRun
  pub contract : StageContract
  pub rows : List StageRun
  pub following : Option Stage
  pub found : StageRuns.get stage_run_id w.stage_runs ≡ some run
  pub executable : Executable w.state run w contract
  pub marked :
      StageRuns.mark_succeeded stage_run_id output finished_at w.stage_runs ≡ ok (c.stage_run, rows)
  pub follows : Follows run.stage_key contract.milestone.stages following
  pub continued : Continued w output run following rows c w'

-- When a Stage succeeds, its row was executable at the cursor of the state, and the table marks it
-- succeeded with the new commit. Then either the Stage that follows it in the Milestone is queued in the
-- same Run, as a new row that the table accepts, with the new commit as its input, the cursor has moved
-- to it, and the Owner's mailbox is untouched; or no Stage follows, no other row is stored, the commit is
-- the Candidate, and the mailbox, which was idle, has work. Nothing else of the state changes.
pub succeed_stage-Succeeded :
    (stage_run_id output : String) (finished_at : ℕ) (stage_run_uuid message_id : String)
    (w w' : World) (c : StageCompletion)
    → succeed_stage stage_run_id output finished_at stage_run_uuid message_id w ≡ ok (c, w')
    → Succeeded w stage_run_id output finished_at c w'
unfolding succeed_stage
succeed_stage-Succeeded stage_run_id output finished_at stage_run_uuid message_id w w' c h =
    let e : Ensures (succeed_stage stage_run_id output finished_at stage_run_uuid message_id w)
        (λ result. Succeeded w stage_run_id output finished_at result.0 result.1) =
      Ensures-or_raise _ _ _ λ r found. Ensures-guard _ _ _ λ _.
        Ensures-bind _ _ λ contract accepted. Ensures-guard _ _ _ λ _.
          Ensures-bind _ _ λ row marked. Ensures-bind _ _ λ stage chosen. record {
            at = λ result made.
                let (same, continued) =
                  (continue_run-Continued contract.milestone r row.0 output finished_at
                      stage_run_uuid message_id stage (record w { stage_runs = row.1 })).at
                    result made in
                let ready = (stage_contract-Executable w.state r w).at contract accepted in
                record {
                  run = r;
                  contract = contract;
                  rows = row.1;
                  following = stage;
                  found = found;
                  executable = ready;
                  marked = marked ∙ ap (λ (x : StageRun). ok (x, row.1)) (sym same);
                  follows =
                      subst (λ (key : String). Follows key contract.milestone.stages stage)
                        (stage_of contract r ready.stage)
                        ((next_stage-Follows contract.stage.key contract.milestone.stages).at stage
                          chosen);
                  continued = marked_rows w output r stage row.1 result.0 result.1 continued;
                };
          } in
    e.at (c, w') h
  where
    stage_of :
        (contract : StageContract) (r : StageRun)
        → find (λ (s : Stage). s.key == r.stage_key) contract.milestone.stages ≡ some contract.stage
        → contract.stage.key ≡ r.stage_key
    stage_of contract r found = ground (
      arith,
      find-holds (λ (s : Stage). s.key == r.stage_key) contract.milestone.stages contract.stage
          found,
      eq_iff contract.stage.key r.stage_key,
    )

-- What the failure of a Stage has done.
pub record Failed (w : World) (stage_run_id failure : String) (finished_at : ℕ)
    (c : StageCompletion) (w' : World) : Type 0 where
  pub run : StageRun
  pub was_running : find (running_with_id stage_run_id) w.stage_runs ≡ some run
  pub at : at_cursor w.state run ≡ true
  pub undecided : w.state.pending_action ≡ none
  pub no_candidate : is_revision run ≡ false → w.state.current_candidate_commit_sha ≡ none
  pub row : c.stage_run ≡ StageRuns.finished failed none (some (normalize failure)) finished_at run
  pub state : w'.state ≡ (if is_revision run then w.state else record w.state { status = blocked })
  pub rows :
      update_first
        (running_with_id stage_run_id)
        (StageRuns.finished failed none (some (normalize failure)) finished_at)
        w.stage_runs
      ≡ some (c.stage_run, w'.stage_runs)

pub submit_revision_failure-state :
    (revision : Bool) (r : StageRun) (failure message_id : String) (w w' : World)
    → submit_revision_failure revision r failure message_id w ≡ ok w'
    → (w'.state ≡ w.state) × (w'.stage_runs ≡ w.stage_runs)
unfolding raising submit_revision_failure submit_owner_input
submit_revision_failure-state revision r failure message_id w w' h = (ground arith, ground arith)

get-running :
    (stage_run_id : String) (rows : List StageRun) (r old : StageRun)
    → StageRuns.get stage_run_id rows ≡ some r
    → is_running r.status ≡ true
    → find (running_with_id stage_run_id) rows ≡ some old
    → count (StageRuns.has_id stage_run_id) rows ≤ 1
    → old ≡ r
get-running stage_run_id [] r old g run f one = cc
get-running stage_run_id (x ∷ xs) r old g run f one =
    ground (arith, get-running stage_run_id xs r old)

fail_stage-Ensures :
    (stage_run_id failure : String) (finished_at : ℕ) (message_id : String) (w : World)
    → count (StageRuns.has_id stage_run_id) w.stage_runs ≤ 1
    → Ensures
        (fail_stage stage_run_id failure finished_at message_id w)
        (λ result. Failed w stage_run_id failure finished_at result.0 result.1)
unfolding fail_stage StageRuns.mark_failed
fail_stage-Ensures stage_run_id failure finished_at message_id w one = Ensures-guard _ _ _ λ _.
    Ensures-or_raise _ _ _ λ r got. Ensures-guard _ _ _ λ _. Ensures-bind _ _ λ contract accepted.
      Ensures-guard _ _ _ λ running_r. Ensures-bind _ _ λ row marked. Ensures-bind _ _ λ step moves.
        Ensures-bind _ _ λ final sent.
          let (old, found, changed, update, _) =
            finish-found stage_run_id failed none (some (normalize failure)) finished_at
              w.stage_runs row.1 row.0 marked in
          let same : old ≡ r =
            get-running stage_run_id w.stage_runs r old got (ground arith) found one in
          let ready_run : Executable w.state r w contract =
            (stage_contract-Executable w.state r w).at contract accepted in
          let (m, _, e) =
            transition-moved _ _ (record w { stage_runs = row.1 }) step.0 step.1 moves in
          let (at, cursor) = stage_failed-at r w.state step.0 m in
          let (kept, table) =
            submit_revision_failure-state (is_revision r) r (normalize failure) message_id step.1
              final sent in
          Ensures-ok _ _ (record {
            run = r;
            was_running = found ∙ ap some same;
            at = cursor;
            undecided = ready_run.undecided;
            no_candidate = ready_run.candidate;
            row =
                changed
                ∙ ap (StageRuns.finished failed none (some (normalize failure)) finished_at) same;
            state = kept ∙ ap (λ (v : World). v.state) e ∙ at;
            rows =
                update
                ∙ ap (λ (t : List StageRun). some (row.0, t))
                    (sym (table ∙ ap (λ (v : World). v.stage_runs) e));
          })

-- When the failure of a Stage is recorded, its row is FAILED with the normalized failure. A normal run
-- blocks the project and changes nothing else of the state; the failed revision of a Candidate leaves
-- the state as it was. (The identity of a row is the table's key.)
pub fail_stage-Failed :
    (stage_run_id failure : String) (finished_at : ℕ) (message_id : String) (w w' : World)
    (c : StageCompletion)
    → count (StageRuns.has_id stage_run_id) w.stage_runs ≤ 1
    → fail_stage stage_run_id failure finished_at message_id w ≡ ok (c, w')
    → Failed w stage_run_id failure finished_at c w'
fail_stage-Failed stage_run_id failure finished_at message_id w w' c one h =
    (fail_stage-Ensures stage_run_id failure finished_at message_id w one).at (c, w') h
