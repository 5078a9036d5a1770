-- ===== src/Delivery/Driver/Stages/Walk.antt =====
-- The walk over a chain of revisions (`_executor_session_stage_run_id` of _driver.py).
use agent_panel_x.Prelude.{
  [], ℕ, zero, suc, ◌≤◌, ◌<◌, String, ◌≡◌, sym, ◌≢◌, inl, inr, false, not, some, List, ◌∷◌, arith,
  eq_iff, Bool-cases, Option-cases, length, find, count, find-holds, runtime_error, raising, err,
}
use agent_panel_x.Delivery.Models.{StageRun, occurs}
use mathlib.Core.Path.{subst}
use agent_panel_x.Delivery.StageRuns
use agent_panel_x.Delivery.StageRuns.{has_id}
use agent_panel_x.Delivery.Driver.Stages.{revision_root}

-- How many rows the walk has not seen.
abbrev pub unseen : List String → List StageRun → ℕ
unseen seen = count (λ r. not (occurs r.stage_run_id seen))

unseen-le :
    (seen : List String) (k : String) (rows : List StageRun)
    → unseen (k ∷ seen) rows ≤ unseen seen rows
unseen-le seen k [] = omega arith
unseen-le seen k (x ∷ xs) = ground (arith, unseen-le seen k xs)

unseen-less :
    (seen : List String) (k : String) (rows : List StageRun) (r : StageRun)
    → find (has_id k) rows ≡ some r
    → occurs k seen ≡ false
    → unseen (k ∷ seen) rows < unseen seen rows
unseen-less seen k [] r h fresh = cc
unseen-less seen k (x ∷ xs) r h fresh = ground (
  arith,
  unseen-le seen k xs,
  unseen-less seen k xs r,
  eq_iff x.stage_run_id k,
  eq_iff k x.stage_run_id,
)

unseen-length : (seen : List String) (rows : List StageRun) → unseen seen rows ≤ length rows
unseen-length seen [] = omega arith
unseen-length seen (x ∷ xs) = ground (arith, unseen-length seen xs)

get_self :
    (k : String) (rows : List StageRun) (r : StageRun)
    → find (has_id k) rows ≡ some r
    → r.stage_run_id ≡ k
get_self k rows r h = ground (arith, find-holds (has_id k) rows r h, eq_iff r.stage_run_id k)

revision_root-unseen :
    (fuel : ℕ) (seen : List String) (r : StageRun) (rows : List StageRun)
    → find (has_id r.stage_run_id) rows ≡ some r
    → unseen seen rows < fuel
    → revision_root fuel seen r rows ≢ err (runtime_error "out of fuel")
unfolding raising revision_root
revision_root-unseen zero seen r rows here more h = omega arith
revision_root-unseen (suc fuel) seen r rows here more h =
    elim (Option-cases r.revision_of_stage_run_id) [
      | inl normal ↦ absurd (ground (arith, normal))
      | inr (source, revises) ↦ elim (Bool-cases (occurs r.stage_run_id seen)) [
        | inl cycle ↦ absurd (ground (arith, revises, cycle))
        | inr fresh ↦ elim (Option-cases (find (has_id source) rows)) [
          | inl missing ↦ absurd (ground (arith, revises, fresh, missing))
          | inr (parent, found) ↦
              revision_root-unseen fuel (r.stage_run_id ∷ seen) parent rows
                (subst (λ (k : String). find (has_id k) rows ≡ some parent)
                  (sym (get_self source rows parent found)) found)
                (ground (arith, unseen-less seen r.stage_run_id rows r here fresh))
                (ground (arith, revises, fresh, found))
        ]
      ]
    ]

-- The walk from a stored StageRun to the run that its revisions started from always ends: whatever the
-- rows link to, it reaches that run or reports a cycle or a missing parent.
pub revision_root-enough :
    (r : StageRun) (rows : List StageRun)
    → StageRuns.get r.stage_run_id rows ≡ some r
    → revision_root (suc (suc (length rows))) [] r rows ≢ err (runtime_error "out of fuel")
revision_root-enough r rows here =
    revision_root-unseen (suc (suc (length rows))) [] r rows here
      (ground (arith, unseen-length [] rows))
