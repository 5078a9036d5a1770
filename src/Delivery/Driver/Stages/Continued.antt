-- ===== src/Delivery/Driver/Stages/Continued.antt =====
-- What follows a Stage that has succeeded: the next Stage of the Run, or the Candidate.

use agent_panel_x.Runtime.Transition.{submit_owner_input-at}
use agent_panel_x.Delivery.Models.Checks.{check_stage_run-identity}
use agent_panel_x.Prelude.{
  ℕ, String, ◌≡◌, refl, sym, ap, ◌∙◌, true, Option, none, some, List, arith, Ensures, Ensures-bind,
  Ensures-ok, raising, ok,
}
use agent_panel_x.State.{in_progress, ProjectRuntimeState, post_init}
use agent_panel_x.Delivery.Models.{queued, Stage, Milestone, StageRun}
use agent_panel_x.Runtime.{OwnerWorkState, World}
use agent_panel_x.Delivery.Driver.Contract.{advance_stage, candidate_ready}
use agent_panel_x.Runtime.Transition.{transition-moved}
use agent_panel_x.Delivery.StageRuns
use agent_panel_x.Delivery.Driver.{at_cursor, at_cursor-eq, at_cursor-intro, assert_current_stage}
use agent_panel_x.Delivery.Driver.Stages.{StageCompletion, following_run, continue_run}

-- The mutations, where they succeed.
advance_stage-at :
    (r : StageRun) (stage : Stage) (s t : ProjectRuntimeState)
    → advance_stage r stage s ≡ ok t
    → (t ≡ record s { current_stage_key = some stage.key })
      × (at_cursor s r ≡ true)
      × (s.current_candidate_commit_sha ≡ none)
      × (s.status ≡ in_progress)
unfolding raising advance_stage assert_current_stage post_init
advance_stage-at r stage s t h = (ground arith, ground arith, ground arith, ground arith)

candidate_ready-at :
    (r : StageRun) (output : String) (s t : ProjectRuntimeState)
    → candidate_ready r output s ≡ ok t
    → (t ≡ record s { current_candidate_commit_sha = some output }) × (s.status ≡ in_progress)
unfolding raising candidate_ready assert_current_stage post_init
candidate_ready-at r output s t h = (ground arith, ground arith)

-- What the success of a Stage has done to a table that holds its result: the Stage that follows is queued
-- in the same Run on the new commit and the cursor is at it, or none follows, the commit is the
-- Candidate and the Owner's mailbox has its review to do.
pub data Continued (w : World) (output : String) (r : StageRun) (following : Option Stage)
    (rows : List StageRun) (c : StageCompletion) (w' : World) : Type 0 where
  advanced :
      (next_run : StageRun) (stage : Stage)
      → following ≡ some stage
      → next_run.stage_key ≡ stage.key
      → StageRuns.insert next_run rows ≡ ok w'.stage_runs
      → c.next_stage_run ≡ some next_run
      → c.candidate_commit_sha ≡ none
      → next_run.status ≡ queued
      → next_run.input_commit_sha ≡ output
      → next_run.run_id ≡ r.run_id
      → at_cursor w.state r ≡ true
      → at_cursor w'.state next_run ≡ true
      → w'.state ≡ record w.state { current_stage_key = some next_run.stage_key }
      → w'.owner_work ≡ w.owner_work
      → Continued w output r following rows c w'
  candidate :
      following ≡ none
      → w'.stage_runs ≡ rows
      → c.next_stage_run ≡ none
      → c.candidate_commit_sha ≡ some output
      → w'.state ≡ record w.state { current_candidate_commit_sha = some output }
      → w.owner_work ≡ OwnerWorkState.idle
      → w'.owner_work ≡ OwnerWorkState.runnable
      → Continued w output r following rows c w'

pub continue_run-Continued :
    (milestone : Milestone) (r done_run : StageRun) (output : String) (finished_at : ℕ)
    (stage_run_uuid message_id : String) (stage : Option Stage) (w : World)
    → Ensures
        (continue_run milestone r done_run output finished_at stage_run_uuid message_id stage w)
        (λ result.
          (result.0.stage_run ≡ done_run)
          × Continued w output r stage w.stage_runs result.0 result.1)
unfolding continue_run
continue_run-Continued milestone r done_run output finished_at stage_run_uuid message_id
      (some stage) w =
    Ensures-bind _ _ λ next_run valid. Ensures-bind _ _ λ rows ins. Ensures-bind _ _ λ step moves.
      let (m, _, e) = transition-moved _ _ (record w { stage_runs = rows }) step.0 step.1 moves in
      let (at, before, no_candidate, rolling) = advance_stage-at r stage w.state step.0 m in
      let (run, snapshot, key, _) = at_cursor-eq w.state r before in
      let same : next_run ≡ following_run r stage stage_run_uuid output finished_at =
        check_stage_run-identity _ next_run valid in
      let table : step.1.stage_runs ≡ rows = ap (λ (v : World). v.stage_runs) e in
      Ensures-ok _ _ (
        refl,
        Continued.advanced next_run stage refl (ground (arith, same)) (ins ∙ ap ok (sym table)) refl
            refl (ground (arith, same)) (ground (arith, same)) (ground (arith, same)) before
            (at_cursor-intro step.1.state next_run (ground (arith, e, at, run, same))
              (ground (arith, e, at, snapshot, same)) (ground (arith, e, at, key, same))
              (ground (arith, e, at, same)))
            (ground (arith, e, at, same)) (ground (arith, e)),
      )
continue_run-Continued milestone r done_run output finished_at stage_run_uuid message_id none w =
    Ensures-bind _ _ λ step moves. Ensures-bind _ _ λ ref _. Ensures-bind _ _ λ w'' submitted.
      let (m, _, e) = transition-moved _ _ w step.0 step.1 moves in
      let (at, rolling) = candidate_ready-at r output w.state step.0 m in
      let (idle, sent) = submit_owner_input-at _ message_id step.1 w'' submitted in
      Ensures-ok _ _ (
        refl,
        Continued.candidate refl (ground (arith, e, sent)) refl refl (ground (arith, e, at, sent))
            (ground (arith, e, idle)) (ground (arith, sent)),
      )

pub marked_rows :
    (w : World) (output : String) (r : StageRun) (following : Option Stage) (rows : List StageRun)
    (c : StageCompletion) (w' : World)
    → Continued (record w { stage_runs = rows }) output r following rows c w'
    → Continued w output r following rows c w'
marked_rows w output r f rows c w' (Continued.advanced n s x y z a b d e g h i j k) =
    Continued.advanced n s x y z a b d e g h i j k
marked_rows w output r f rows c w' (Continued.candidate x y a b d e g) =
    Continued.candidate x y a b d e g
