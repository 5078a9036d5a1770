-- ===== src/Delivery/Snapshot.antt =====
-- The operations of a Milestone Snapshot (MilestoneSnapshot in src/agentplanex/services/delivery/models.py),
-- the merge of a new pending View (`_merge_pending_milestones` in _service.py) and the Snapshot
-- table (src/agentplanex/infrastructure/sqlite/repositories/milestone_snapshot.py).
pub mod Completion
pub mod Merge
pub mod Keys
use agent_panel_x.Prelude.{
  [], ◌>>=◌, ◌>>◌, ℕ, String, Bool, true, false, not, Option, none, some, List, ◌∷◌, ◌++◌, ◌==◌,
  if◌then◌else◌, is_some, filter, any, find, value_error, lookup_error, delivery_error,
  integrity_error, Result, ok, raise_if,
}
use agent_panel_x.Delivery.Models.{
  completed, Milestone, MilestoneSnapshot, is_pending, is_completed, occurs, unique, milestone_keys,
  check_snapshot,
}

-- `first_pending`: the only Milestone selection policy.
unfoldable pub first_pending : MilestoneSnapshot → Option Milestone
first_pending s = find is_pending s.milestones

-- The loop of `with_completed_milestone`, with `found` as it stands after each Milestone.
complete_loop : String → Bool → List Milestone → Result (Bool × List Milestone)
complete_loop key found [] = ok (found, [])
complete_loop key found (m ∷ ms) =
    if m.key == key
    then (do
      raise_if (not (is_pending m)) (value_error "Milestone is not pending")
      (found', rest) ← complete_loop key true ms
      ok (found', record m { state = completed } ∷ rest))
    else (do (found', rest) ← complete_loop key found ms; ok (found', m ∷ rest))

-- `with_completed_milestone`: the successor Snapshot after the only legal completion path.
unfoldable pub with_completed_milestone :
    MilestoneSnapshot
    → (milestone_key snapshot_id reason : String) → (message_id : Option String) → (created_at : ℕ)
    → Result MilestoneSnapshot
unfolding complete_loop
with_completed_milestone s milestone_key snapshot_id reason message_id created_at = do
  (found, milestones) ← complete_loop milestone_key false s.milestones
  raise_if (not found) (lookup_error "Milestone not found in Snapshot")
  check_snapshot (record {
    snapshot_id = snapshot_id;
    triage_id = s.triage_id;
    previous_snapshot_id = some s.snapshot_id;
    plan_commit_sha = s.plan_commit_sha;
    milestones = milestones;
    reason = reason;
    message_id = message_id;
    created_at = created_at;
  })

-- `_candidate_successor_snapshot`: the same View under a new identity.
unfoldable pub candidate_successor_snapshot :
    MilestoneSnapshot → (snapshot_id reason : String) → Option String → ℕ → Result MilestoneSnapshot
candidate_successor_snapshot s snapshot_id reason message_id created_at = check_snapshot (record {
  snapshot_id = snapshot_id;
  triage_id = s.triage_id;
  previous_snapshot_id = some s.snapshot_id;
  plan_commit_sha = s.plan_commit_sha;
  milestones = s.milestones;
  reason = reason;
  message_id = message_id;
  created_at = created_at;
})

abbrev pub completed_milestones : MilestoneSnapshot → List Milestone
completed_milestones s = filter is_completed s.milestones

merge_into : List Milestone → Option MilestoneSnapshot → Result (List Milestone)
merge_into pending_milestones none = ok pending_milestones
merge_into pending_milestones (some s) = do
  raise_if
      (any (λ k. occurs k (milestone_keys pending_milestones))
        (milestone_keys (completed_milestones s)))
      (delivery_error "Completed Milestones cannot be redefined")
  ok (completed_milestones s ++ pending_milestones)

-- `_merge_pending_milestones`.
unfoldable pub merge_pending_milestones :
    Option MilestoneSnapshot → List Milestone → Result (List Milestone)
unfolding merge_into
merge_pending_milestones previous pending_milestones = do
  raise_if (not (unique (milestone_keys pending_milestones)))
      (delivery_error "Pending Milestone keys must be unique")
  merge_into pending_milestones previous

-- `snapshots.get` and `snapshots.insert`, with the primary key of the table.
abbrev pub get : String → List MilestoneSnapshot → Option MilestoneSnapshot
get snapshot_id = find (λ s. s.snapshot_id == snapshot_id)

unfoldable pub insert : MilestoneSnapshot → List MilestoneSnapshot → Result (List MilestoneSnapshot)
insert s table = do
  raise_if (is_some (get s.snapshot_id table)) (integrity_error "milestone_snapshot.snapshot_id")
  ok (table ++ s ∷ [])
