-- ===== src/Tests/Tables.antt =====
-- The tables, Snapshots and state transitions at concrete inputs.
use agent_panel_x.Prelude.{
  [], ℕ, ◌≡◌, refl, true, none, some, List, ◌∷◌, ◌++◌, filter, find, head?, count, Result, ok, ◌+◌,
  arith, eq_iff,
}
use agent_panel_x.State.{blocked, ProjectRuntimeState, post_init}
use agent_panel_x.Runtime.{World}
use agent_panel_x.Delivery.Models.{
  pending, completed, succeeded, failed, is_pending, is_completed, Milestone, MilestoneSnapshot,
  StageRun, unique, milestone_keys,
}
use agent_panel_x.Delivery.Snapshot.{with_completed_milestone, completed_milestones}
use agent_panel_x.Delivery.Snapshot.Completion.{
  Cut, complete, complete-first_pending, with_completed_milestone_keeps,
}
use agent_panel_x.Delivery.Snapshot.Merge.{merge_keeps_completed}
use agent_panel_x.Delivery.StageRuns.{claimed, finished}
use agent_panel_x.Delivery.StageRuns.Reachable.{Reachable, IsSound, reachable-Sound}
use agent_panel_x.Delivery.Driver.Candidate.Base.{IsRanked}
use agent_panel_x.Tests.Computing.{computing}
use agent_panel_x.Tests.Data.{
  two_milestones, first_milestone, second_milestone, view_of, world_of, between_runs, design_done,
  queued_row, running_row, row,
}

abbrev one_queued : List StageRun
one_queued = design_done ∷ queued_row "b" "build" "c1" 3 ∷ []

abbrev one_running : List StageRun
one_running = design_done ∷ running_row "b" "build" "c1" 3 ∷ []

abbrev claimed_row : StageRun × List StageRun
claimed_row = (
  claimed 5 50 (queued_row "b" "build" "c1" 3),
  design_done ∷ claimed 5 50 (queued_row "b" "build" "c1" 3) ∷ [],
)

abbrev ended_row : StageRun
ended_row = finished succeeded (some "c2") none 8 (running_row "b" "build" "c1" 3)

abbrev lost_row : StageRun
lost_row = finished failed none (some "lost") 9 (running_row "b" "build" "c1" 3)

abbrev successor : List Milestone → MilestoneSnapshot
successor milestones = record (view_of milestones) {
  snapshot_id = "s2";
  previous_snapshot_id = some "s1";
  reason = "good";
  message_id = some "msg";
  created_at = 9;
}

complete-first_pending_example :
    (cut : Cut two_milestones.milestones (first_milestone pending)) × (with_completed_milestone
        two_milestones "m1" "s2" "good"
        (some "msg")
        9
      ≡ ok (successor (cut.before ++ complete (first_milestone pending) ∷ cut.after)))
unfolding computing
complete-first_pending_example =
    complete-first_pending two_milestones (first_milestone pending) "s2" "good" (some "msg") 9 refl
      refl refl refl

with_completed_milestone_keeps_example :
    let t = successor (first_milestone completed ∷ second_milestone ∷ []) in
    (milestone_keys t.milestones ≡ milestone_keys two_milestones.milestones)
    × (count is_pending two_milestones.milestones ≡ count is_pending t.milestones + 1)
    × (t.triage_id ≡ two_milestones.triage_id)
    × (t.plan_commit_sha ≡ two_milestones.plan_commit_sha)
    × (t.previous_snapshot_id ≡ some two_milestones.snapshot_id)
unfolding computing
with_completed_milestone_keeps_example =
    with_completed_milestone_keeps two_milestones
      (successor (first_milestone completed ∷ second_milestone ∷ [])) "m1" "s2" "good" (some "msg")
      9 refl refl

abbrev half_done : MilestoneSnapshot
half_done = view_of (first_milestone completed ∷ second_milestone ∷ [])

abbrev third_milestone : Milestone
third_milestone = record second_milestone { key = "m3" }

merge_keeps_completed_example :
    let view = first_milestone completed ∷ third_milestone ∷ [] in
    (filter is_completed view ≡ completed_milestones half_done)
    × (find is_pending view ≡ head? (third_milestone ∷ []))
    × (unique (milestone_keys view) ≡ true)
unfolding computing
merge_keeps_completed_example =
    merge_keeps_completed half_done (third_milestone ∷ [])
      (first_milestone completed ∷ third_milestone ∷ []) refl refl refl

abbrev before_block : World
before_block = world_of between_runs two_milestones []

abbrev blocking : ProjectRuntimeState → Result ProjectRuntimeState
blocking s = post_init (record s { status = blocked })

abbrev intervention : ProjectRuntimeState
intervention = record between_runs {
  status = blocked;
  blocked_reason = some "needs a key";
  blocked_capability = some "deploy";
  blocked_previous_status = some "IN_PROGRESS";
}

abbrev revision_row : StageRun
revision_row = record (queued_row "r" "build" "c2" 5) {
  revision_of_stage_run_id = some "b";
  revision_feedback = some "more";
}

abbrev rank_of : StageRun → ℕ
rank_of r = elim r.revision_of_stage_run_id [ none ↦ 0 | some _ ↦ 1 ]

abbrev revised_rows : List StageRun
revised_rows = row "b" "build" succeeded "c1" (some "c2") none 3 ∷ revision_row ∷ []

ranked : IsRanked rank_of revised_rows
ranked = record {
  above = λ r parent source_id stored revises found.
      ground (arith, eq_iff "b" r.stage_run_id, eq_iff "r" r.stage_run_id, eq_iff "b" source_id);
}

abbrev fresh_row : StageRun
fresh_row = queued_row "b" "build" "c1" 3

reached_running : Reachable (claimed 5 50 fresh_row ∷ [])
unfolding computing
reached_running =
    Reachable.claiming "t1" 5 50 (claimed 5 50 fresh_row) (fresh_row ∷ [])
      (claimed 5 50 fresh_row ∷ [])
      (Reachable.inserting fresh_row [] (fresh_row ∷ []) Reachable.start refl refl) refl

reachable-Sound_example : IsSound (claimed 5 50 fresh_row ∷ [])
reachable-Sound_example = reachable-Sound (claimed 5 50 fresh_row ∷ []) reached_running
