-- ===== src/Delivery/StageRuns/Claim.antt =====
-- Which row a claim takes.
use agent_panel_x.Prelude.{
  [], ℕ, String, ◌≡◌, ap, ◌∙◌, inl, inr, Bool, true, ◌&&◌, some, List, ◌∷◌, arith, ◌==◌, Bool-cases,
  Option-cases, find, find-holds, raising, ok,
}
use agent_panel_x.Delivery.Models.{StageRun, check_stage_run, is_queued}
use agent_panel_x.Delivery.Models.Checks.{check_stage_run-identity}
use agent_panel_x.Table.{update_first}
use agent_panel_x.Table.Updates.{update_first-found}
use agent_panel_x.Table.Finding.{find-narrow}
use agent_panel_x.Table.Checked.{checked-some}
use agent_panel_x.Delivery.StageRuns.{is_active_of, claim_next, claimed}

abbrev queued_of : String → StageRun → Bool
queued_of triage_id r = r.triage_id == triage_id && is_queued r.status

queued_active :
    (t : String) (r : StageRun)
    → is_queued r.status ≡ true
    → is_active_of t r ≡ true
    → queued_of t r ≡ true
queued_active t r q h = ground arith

update_first-active :
    (t : String) (a b : ℕ) (rows rows' : List StageRun) (r s : StageRun)
    → find (is_active_of t) rows ≡ some r
    → is_queued r.status ≡ true
    → update_first (queued_of t) (claimed a b) rows ≡ some (s, rows')
    → find (is_active_of t) rows' ≡ some s
unfolding raising update_first
update_first-active t a b [] rows' r s f q e = cc
update_first-active t a b (x ∷ xs) rows' r s f q e = elim (Bool-cases (queued_of t x)) [
  | inl yes_x ↦ ground arith
  | inr no_x ↦ elim (Option-cases (update_first (queued_of t) (claimed a b) xs)) [
    | inl nothing ↦ absurd (ground arith)
    | inr ((y, rest), found) ↦ ground (arith, update_first-active t a b xs rest r y)
  ]
]

-- The claim of a Feature whose active row is queued takes that row and keeps it the active one.
pub claim_next-claimed :
    (t : String) (a b : ℕ) (rows rows' : List StageRun) (r s : StageRun)
    → find (is_active_of t) rows ≡ some r
    → is_queued r.status ≡ true
    → claim_next t a b rows ≡ ok (some (s, rows'))
    → (s ≡ claimed a b r) × (find (is_active_of t) rows' ≡ some s)
unfolding claim_next
claim_next-claimed t a b rows rows' r s f q e =
    let (found, _) = checked-some check_stage_run check_stage_run-identity _ s rows' e in
    let (old, is_old, made) = update_first-found (queued_of t) (claimed a b) rows rows' s found in
    let same : old ≡ r = ground (
      arith,
      is_old,
      find-narrow (is_active_of t) (queued_of t) rows r (λ x h. ground arith) f
          (queued_active t r q (find-holds _ rows r f)),
    ) in
    (made ∙ ap (claimed a b) same, update_first-active t a b rows rows' r s f q found)
