-- ===== src/Delivery/Driver/Candidate/Base.antt =====
-- The walk to the base of a Candidate (the loop of `candidate_contract` over revisions).
use agent_panel_x.Prelude.{
  ℕ, zero, suc, ◌<◌, String, ◌≡◌, inl, inr, Option, none, some, List, arith, eq_iff, Option-cases,
  find-holds, ok,
}
use agent_panel_x.Delivery.Models.{StageRun}
use mathlib.Core.Path.{subst}
use agent_panel_x.Delivery.StageRuns
use agent_panel_x.Delivery.Driver.Candidate.{revision_base}

-- Each stored revision is ranked above the row that it revises.
pub record IsRanked (rank : StageRun → ℕ) (rows : List StageRun) : Type 0 where
  pub above :
      (r parent : StageRun) (source_id : String)
      → StageRuns.get r.stage_run_id rows ≡ some r
      → r.revision_of_stage_run_id ≡ some source_id
      → StageRuns.get source_id rows ≡ some parent
      → rank parent < rank r

get-stored :
    (source_id : String) (rows : List StageRun) (r : StageRun)
    → StageRuns.get source_id rows ≡ some r
    → StageRuns.get r.stage_run_id rows ≡ some r
get-stored source_id rows r found = subst (λ (k : String). StageRuns.get k rows ≡ some r) same found
  where
    same : source_id ≡ r.stage_run_id
    same = ground (
      arith,
      find-holds (StageRuns.has_id source_id) rows r found,
      eq_iff r.stage_run_id source_id,
    )

-- Where a rank orders every stored revision above its source, the walk from a stored run to the run at
-- its base ends within one round more than the rank of the run.
pub revision_base-enough :
    (rank : StageRun → ℕ) (rows : List StageRun)
    → IsRanked rank rows
    → (fuel : ℕ) (r : StageRun) → StageRuns.get r.stage_run_id rows ≡ some r
    → rank r < fuel
    → (base : Option StageRun) × (revision_base fuel r rows ≡ ok base)
unfolding revision_base
revision_base-enough rank rows ranked zero r stored more = absurd (omega arith)
revision_base-enough rank rows ranked (suc fuel) r stored more =
    elim (Option-cases r.revision_of_stage_run_id) [
      | inl normal ↦ (some r, ground (arith, normal))
      | inr (source_id, revises) ↦ elim (Option-cases (StageRuns.get source_id rows)) [
        | inl missing ↦ (none, ground (arith, revises, missing))
        | inr (parent, found) ↦
            (let (base, e) =
                revision_base-enough rank rows ranked fuel parent
                  (get-stored source_id rows parent found)
                  (ground (arith, ranked.above r parent source_id stored revises found)) in
              (base, ground (arith, revises, found, e)))
      ]
    ]
