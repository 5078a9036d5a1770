-- ===== src/Takeover/Fence/Mutations.antt =====
-- The check that every mutation of a project makes (`require_mutation_fence` of
-- src/agentplanex/infrastructure/sqlite/repositories/auto_takeover.py).
use agent_panel_x.Prelude.{
  raising, String, ◌≡◌, refl, ◌↔◌, inl, inr, Option, none, some, arith, Option-cases, find, All, ok,
  Bool, List,
}
use agent_panel_x.Table.Updates.{find-none-count, count-zero-find, count-narrow}
use agent_panel_x.Table.Checked.{find-All}
use agent_panel_x.Takeover.{
  TakeoverRun, Takeovers, is_running, active_of, check_first, require_mutation_fence,
}
use agent_panel_x.Takeover.Reachable.{Reachable}
use agent_panel_x.Takeover.Fence.{fence_of, require_active_fence-fence_of}

abbrev runs_now : TakeoverRun → Bool
runs_now r = is_running r.status

no_run-active :
    (runs : List TakeoverRun) (triage_id : String)
    → find runs_now runs ≡ none
    → find (active_of triage_id) runs ≡ none
no_run-active runs t idle = count-zero-find (active_of t) runs (
    ground (
      arith,
      find-none-count runs_now runs idle,
      count-narrow runs_now (active_of t) runs (λ r h. ground arith),
    ))

check_first-none :
    (token : Option String) (s : Takeovers) → (check_first none token s ≡ ok tt) ↔ (token ≡ none)
unfolding raising check_first
check_first-none none s = (λ h. refl, λ h. refl)
check_first-none (some t) s = (λ h. ground arith, λ h. ground arith)

-- Where all runs of a project belong to one Feature, in tables that the repository reaches, a mutation of
-- the project passes its check exactly with the token that the fence of that Feature holds: none where
-- no takeover runs, else that of the active attempt.
pub require_mutation_fence-fence_of :
    (s : Takeovers) (triage_id : String) (token : Option String)
    → Reachable s
    → All (λ (r : TakeoverRun). r.triage_id ≡ triage_id) s.runs
    → (require_mutation_fence token s ≡ ok tt) ↔ (token ≡ fence_of triage_id s)
unfolding require_mutation_fence check_first
require_mutation_fence-fence_of s t token reached home =
    elim (Option-cases (find runs_now s.runs)) [
      | inl idle ↦ rw (idle, no_run-active s.runs t idle) (check_first-none token s)
      | inr (r, found) ↦
          (let its : r.triage_id ≡ t =
              find-All (λ (x : TakeoverRun). x.triage_id ≡ t) runs_now s.runs r home found in
            rw (found, its) (require_active_fence-fence_of s t token reached))
    ]
