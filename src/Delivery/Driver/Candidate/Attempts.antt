-- ===== src/Delivery/Driver/Candidate/Attempts.antt =====
-- The runs that the Candidate's chain is made of (`_effective_candidate_stage_runs`).
use agent_panel_x.Prelude.{
  [], String, ◌≡◌, refl, inl, inr, Bool, true, List, ◌∷◌, arith, eq_iff, ◌==◌, Bool-cases, filter,
  Ensures, Ensures-bind, Ensures-ok, raising,
}
use mathlib.Core.List.{Memᴰ}
use mathlib.Core.List.Memᴰ
use agent_panel_x.Delivery.Models.{succeeded, Stage, StageRun, is_succeeded}
use agent_panel_x.Delivery.StageRuns.{row_before}
use agent_panel_x.Delivery.Driver.Candidate.{attempts, latest_from, latest_of, effective_stage_runs}

-- A succeeded row of the table for each Stage, in the order of the Stages.
pub data Attempts (rows : List StageRun) : List StageRun → List Stage → Type 0 where
  empty : Attempts rows [] []
  attempt :
      (r : StageRun) (stage : Stage) (rs : List StageRun) (stages : List Stage)
      → Memᴰ r rows
      → r.stage_key ≡ stage.key
      → r.status ≡ succeeded
      → Attempts rows rs stages
      → Attempts rows (r ∷ rs) (stage ∷ stages)

-- A member of a filtered list is a member of the list, and passes the test.
filter-member {ℓ} :
    {A : Type ℓ} (p : A → Bool) (a : A) (xs : List A)
    → Memᴰ a (filter p xs)
    → Memᴰ a xs × (p a ≡ true)
filter-member p a [] m = absurd (Memᴰ.not-nil m)
filter-member p a (x ∷ xs) m = elim (Bool-cases (p x)) [
  | inl kept ↦ elim (Memᴰ.cases_cons (rw kept at m)) [
    | inl same ↦ (Memᴰ.head same, ground (arith, same, kept))
    | inr later ↦ (let (member, passes) = filter-member p a xs later in (Memᴰ.tail member, passes))
  ]
  | inr dropped ↦
      (let (member, passes) = filter-member p a xs (rw dropped at m) in (Memᴰ.tail member, passes))
]

latest_from-member : (best : StageRun) (rs : List StageRun) → Memᴰ (latest_from best rs) (best ∷ rs)
unfolding latest_from
latest_from-member best [] = Memᴰ.head refl
latest_from-member best (r ∷ rs) = elim (Bool-cases (row_before best r)) [
  | inl later ↦ Memᴰ.tail (rw later (latest_from-member r rs))
  | inr not_later ↦ elim (Memᴰ.cases_cons (latest_from-member best rs)) [
    | inl same ↦ Memᴰ.head (ground (arith, not_later, same))
    | inr member ↦ Memᴰ.tail (Memᴰ.tail (rw not_later member))
  ]
]

latest_of-member : (rs : List StageRun) → Ensures (latest_of rs) (λ r. Memᴰ r rs)
unfolding raising latest_of
latest_of-member [] = record { at = λ r h. cc }
latest_of-member (r ∷ rs) = Ensures-ok _ _ (latest_from-member r rs)

attempts-member :
    (key : String) (r : StageRun) (rows : List StageRun)
    → Memᴰ r (attempts key rows)
    → Memᴰ r rows × (r.stage_key ≡ key) × (r.status ≡ succeeded)
attempts-member key r rows m =
    let (of_key, ended) = filter-member (λ (x : StageRun). is_succeeded x.status) r _ m in
    let (member, same) = filter-member (λ (x : StageRun). x.stage_key == key) r rows of_key in
    (member, ground (arith, eq_iff r.stage_key key, same), ground (arith, ended))

pub effective_stage_runs-Attempts :
    (rows : List StageRun) (stages : List Stage)
    → Ensures (effective_stage_runs rows stages) (λ runs. Attempts rows runs stages)
unfolding effective_stage_runs
effective_stage_runs-Attempts rows [] = Ensures-ok _ _ Attempts.empty
effective_stage_runs-Attempts rows (stage ∷ stages) = Ensures-bind _ _ λ r chosen.
    Ensures-bind _ _ λ rest others.
      let (member, key, ended) =
        attempts-member stage.key r rows
          ((latest_of-member (attempts stage.key rows)).at r chosen) in
      Ensures-ok _ _ (
        Attempts.attempt r stage rest stages member key ended
          ((effective_stage_runs-Attempts rows stages).at rest others))
