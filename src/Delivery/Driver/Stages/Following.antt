-- ===== src/Delivery/Driver/Stages/Following.antt =====
-- The Stage after another one in the order of a Milestone (`_stage_index` of _driver.py).
use agent_panel_x.Prelude.{
  [], String, ◌≡◌, ◌≢◌, inl, inr, Option, List, ◌∷◌, arith, eq_iff, ◌==◌, Bool-cases, head?,
  Ensures, Ensures-ok, raising,
}
use agent_panel_x.Delivery.Models.{Stage}
use agent_panel_x.Delivery.Driver.Contract.{next_stage}

-- What the ordered Stages have right after the first Stage with a key: a Stage, or nothing.
pub data Follows (key : String) : List Stage → Option Stage → Type 0 where
  here :
      (stage : Stage) (rest : List Stage)
      → stage.key ≡ key
      → Follows key (stage ∷ rest) (head? rest)
  later :
      (stage : Stage) (rest : List Stage) (answer : Option Stage)
      → stage.key ≢ key
      → Follows key rest answer
      → Follows key (stage ∷ rest) answer

pub next_stage-Follows :
    (key : String) (stages : List Stage) → Ensures (next_stage key stages) (Follows key stages)
unfolding raising next_stage
next_stage-Follows key [] = record { at = λ a h. cc }
next_stage-Follows key (stage ∷ rest) = elim (Bool-cases (stage.key == key)) [
  | inl same ↦
      rw same
        (Ensures-ok _ _ (Follows.here stage rest (ground (arith, same, eq_iff stage.key key))))
  | inr other ↦ rw other (record {
    at = λ answer h.
        Follows.later stage rest answer (ground (arith, other, eq_iff stage.key key))
          ((next_stage-Follows key rest).at answer h);
  })
]
