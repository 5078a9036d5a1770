-- ===== src/Delivery/Service/Publish/Update.antt =====
-- What an update of the Milestones does to the store, with its Hard Gate.
use agent_panel_x.Prelude.{
  ap, false, Option, ℕ, String, ◌≡◌, refl, sym, ◌∙◌, inl, inr, none, some, List, arith, Bool-cases,
  normalize, Result, ok, err,
}
use agent_panel_x.State.{is_in_progress}
use agent_panel_x.Delivery.Models.{Milestone}
use agent_panel_x.Runtime.{settle, World, publish}
use agent_panel_x.Runtime.{publish}
use agent_panel_x.Delivery.Git.{Git}
use agent_panel_x.State.{ProjectRuntimeState}
use agent_panel_x.Delivery.Driver.{assert_retryable_blocked}
use agent_panel_x.Delivery.Service.{
  unless_no_run, previous_snapshot, assert_publishable, prepare_milestone_view,
  MilestoneReviewResult, MilestonesUpdated,
}
use agent_panel_x.Delivery.Service.Publish.{
  MilestoneHardGate, gate_outcome, run_milestone_hard_gate, first_phase, reviewed, second_phase,
  update_milestones,
}
use agent_panel_x.Delivery.Service.Publish.Gate.{Updated, finish_as}

-- The tables and the state that an update may change.
pub record SameStore (v w : World) : Type 0 where
  pub state : v.state ≡ w.state
  pub snapshots : v.snapshots ≡ w.snapshots
  pub stage_runs : v.stage_runs ≡ w.stage_runs

pub settle-ok :
    (r : Result (MilestonesUpdated × World)) (w w' : World) (u : MilestonesUpdated)
    → settle r w ≡ (ok u, w')
    → r ≡ ok (u, w')
settle-ok (ok (a, v)) w w' u h = cc
settle-ok (err e) w w' u h = cc

-- A gate that only reads: the store is after its answer as it was.
pub record ReadsOnly (gate : MilestoneHardGate) : Type 0 where
  pub same :
      (view : List Milestone) (subject : String) (w : World) → SameStore (gate view subject w).1 w

gate_outcome-same :
    (triage_id subject : String) (answer : Result MilestoneReviewResult) (w : World)
    → SameStore (gate_outcome triage_id subject answer w).1 w
unfolding gate_outcome publish
gate_outcome-same t subject (ok review) w = record {
  state = refl;
  snapshots = refl;
  stage_runs = refl;
}
gate_outcome-same t subject (err e) w = record { state = refl; snapshots = refl; stage_runs = refl }

same_trans : (a b c : World) → SameStore a b → SameStore b c → SameStore a c
same_trans a b c p q = record {
  state = p.state ∙ q.state;
  snapshots = p.snapshots ∙ q.snapshots;
  stage_runs = p.stage_runs ∙ q.stage_runs;
}

run_milestone_hard_gate-same :
    (gate : MilestoneHardGate) (triage_id : String) (view : List Milestone) (subject : String)
    (w : World)
    → ReadsOnly gate
    → SameStore (run_milestone_hard_gate gate triage_id view subject w).1 w
unfolding run_milestone_hard_gate publish
run_milestone_hard_gate-same gate triage_id view subject w reads =
    let g = reads.same view subject (publish _ w) in
    same_trans _ _ w (gate_outcome-same triage_id subject _ _)
      (record { state = g.state; snapshots = g.snapshots; stage_runs = g.stage_runs })

assert_retryable_blocked-same :
    (context : ProjectRuntimeState) (v w : World)
    → SameStore v w
    → assert_retryable_blocked false context v ≡ assert_retryable_blocked false context w
unfolding assert_retryable_blocked
assert_retryable_blocked-same context v w same = rw same.stage_runs refl

unless_no_run-same :
    (run_id : Option String) (context : ProjectRuntimeState) (v w : World)
    → SameStore v w
    → unless_no_run run_id context v ≡ unless_no_run run_id context w
unfolding unless_no_run
unless_no_run-same none context v w same = refl
unless_no_run-same (some run_id) context v w same =
    rw (assert_retryable_blocked-same context v w same) refl

previous_snapshot-same :
    (snapshot_id : Option String) (v w : World)
    → SameStore v w
    → previous_snapshot snapshot_id v ≡ previous_snapshot snapshot_id w
unfolding previous_snapshot
previous_snapshot-same none v w same = refl
previous_snapshot-same (some snapshot_id) v w same = rw same.snapshots refl

-- The View that is prepared depends on the state and these tables only.
prepare_milestone_view-tables :
    (context : ProjectRuntimeState) (pending_milestones : List Milestone) (v w : World)
    → SameStore v w
    → prepare_milestone_view context pending_milestones v
      ≡ prepare_milestone_view context pending_milestones w
unfolding prepare_milestone_view assert_publishable
prepare_milestone_view-tables context pending_milestones v w same =
    rw
      (
        unless_no_run-same context.current_run_id context v w same,
        previous_snapshot-same context.current_snapshot_id v w same,
      )
      refl

prepare_milestone_view-same :
    (pending_milestones : List Milestone) (v w : World)
    → SameStore v w
    → prepare_milestone_view v.state pending_milestones v
      ≡ prepare_milestone_view w.state pending_milestones w
prepare_milestone_view-same pending_milestones v w same =
    ap (λ (c : ProjectRuntimeState). prepare_milestone_view c pending_milestones v) same.state
    ∙ prepare_milestone_view-tables w.state pending_milestones v w same

Updated-same :
    (ms : List Milestone) (reason : String) (v w : World) (u : MilestonesUpdated) (w' : World)
    → SameStore v w
    → Updated v ms reason u w'
    → Updated w ms reason u w'
Updated-same ms reason v w u w' same
      (Updated.published s prepared ready view why of plan a b c d e f g) =
    Updated.published s prepared (sym (prepare_milestone_view-same ms v w same) ∙ ready) view why
      (ground (arith, of, same.state)) (ground (arith, plan, same.state)) a b c
      (ground (arith, d, same.state)) (ground (arith, e, same.snapshots))
      (ground (arith, f, same.state)) (g ∙ same.stage_runs)
Updated-same ms reason v w u w' same (Updated.refused a b c d e f g h) =
    Updated.refused a b c (ground (arith, d, same.state)) (ground (arith, e, same.state))
      (ground (arith, f, same.state)) (g ∙ same.snapshots) (h ∙ same.stage_runs)

reviewed-ok :
    (git : Git) (digest : List Milestone → String) (reason : String)
    (pending_milestones : List Milestone) (subject snapshot_uuid : String) (now : ℕ)
    (answer : Result MilestoneReviewResult) (v w w' : World) (u : MilestonesUpdated)
    → SameStore v w
    → reviewed git digest reason pending_milestones subject snapshot_uuid now answer v ≡ (ok u, w')
    → Updated w pending_milestones reason u w'
unfolding reviewed
reviewed-ok git digest reason ms subject uuid now (err e) v w w' u same h = cc
reviewed-ok git digest reason ms subject uuid now (ok review) v w w' u same h =
    Updated-same ms reason v w u w' same (
      (finish_as git digest reason ms subject (some review) uuid now v _ refl).at (u, w')
        (settle-ok _ v w' u h))

second_phase-ok :
    (git : Git) (gate : MilestoneHardGate) (digest : List Milestone → String) (reason : String)
    (ms : List Milestone) (uuid : String) (now : ℕ) (prepared : Result (List Milestone × String))
    (w w' : World) (u : MilestonesUpdated)
    → ReadsOnly gate
    → second_phase git gate digest reason ms uuid now prepared w ≡ (ok u, w')
    → Updated w ms reason u w'
unfolding second_phase
second_phase-ok git gate digest reason ms uuid now (err e) w w' u reads h = cc
second_phase-ok git gate digest reason ms uuid now (ok (view, subject)) w w' u reads h =
    elim (Bool-cases (is_in_progress w.state.status)) [
      | inl active ↦
          reviewed-ok git digest reason ms subject uuid now _ _ w w' u
            (run_milestone_hard_gate-same gate w.state.triage_id view subject w reads)
            (rw active at h)
      | inr not_active ↦
          (finish_as git digest reason ms subject none uuid now w _ refl).at (u, w')
            (settle-ok _ w w' u (rw not_active at h))
    ]

-- An update of the Milestones that returns has either published the View: a new Snapshot, whose
-- Milestones are the View prepared from the given pending Milestones, with the normalized reason and the
-- approved Plan, follows the current one, is stored and is the current one, the cursor is cleared, and a
-- BLOCKED delivery is IN_PROGRESS again; or the Hard Gate asked for changes: an IN_PROGRESS project without a Run is
-- BLOCKED and nothing is published. The StageRuns stay. (The gate only reads the store.)
pub update_milestones-Updated :
    (before after : Git) (gate : MilestoneHardGate) (digest : List Milestone → String)
    (reason : String) (pending_milestones : List Milestone) (snapshot_uuid : String) (now : ℕ)
    (w w' : World) (u : MilestonesUpdated)
    → ReadsOnly gate
    → update_milestones before after gate digest reason pending_milestones snapshot_uuid now w
      ≡ (ok u, w')
    → Updated w pending_milestones (normalize reason) u w'
unfolding update_milestones
update_milestones-Updated before after gate digest reason ms uuid now w w' u reads h =
    second_phase-ok after gate digest (normalize reason) ms uuid now
      (first_phase before digest reason ms w) w w' u reads h
