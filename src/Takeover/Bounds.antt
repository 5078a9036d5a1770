-- ===== src/Takeover/Bounds.antt =====
-- How many attempts a run of a takeover has.
use agent_panel_x.Prelude.{
  [], ◌+◌, ◌≤◌, String, ◌≡◌, inl, inr, Bool, List, ◌∷◌, ◌==◌, arith, count, All,
}
use agent_panel_x.Takeover.{TakeoverAttempt, Takeovers, has_ordinal}
use agent_panel_x.Takeover.Invariant.{Fenced}
use agent_panel_x.Takeover.Reachable.{Reachable, reachable_takeovers-Sound}

abbrev pub is_attempt_of : String → TakeoverAttempt → Bool
is_attempt_of run_id a = a.run_id == run_id

attempts-by_ordinal :
    (run_id : String) (attempts : List TakeoverAttempt)
    → All Fenced attempts
    → count (is_attempt_of run_id) attempts
      ≡ count (has_ordinal run_id 1) attempts + count (has_ordinal run_id 2) attempts
attempts-by_ordinal run_id [] hs = omega arith
attempts-by_ordinal run_id (a ∷ attempts) hs = elim hs.0.0 [
  | inl first ↦ ground (arith, first, attempts-by_ordinal run_id attempts hs.1)
  | inr second ↦ ground (arith, second, attempts-by_ordinal run_id attempts hs.1)
]

-- In every pair of tables that the repository of takeovers reaches, a run has two attempts at most.
pub attempts-at_most_two :
    (s : Takeovers) (run_id : String) → Reachable s → count (is_attempt_of run_id) s.attempts ≤ 2
attempts-at_most_two s run_id reached =
    let sound = (reachable_takeovers-Sound s reached).attempts_sound in
    ground (
      arith,
      attempts-by_ordinal run_id s.attempts sound.fenced,
      sound.one_ordinal run_id 1,
      sound.one_ordinal run_id 2,
    )
