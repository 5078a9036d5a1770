-- ===== src/Owner/Lifecycle/Claiming.antt =====
-- The claim for the model of a runnable mailbox (`claim_for_model` of _activation.py).

use agent_panel_x.Prelude.{
  [], ℕ, String, ◌≡◌, inl, inr, Bool, true, false, none, some, List, ◌∷◌, arith, Bool-cases,
  Option-cases, find, find-holds, any, raising, ok,
}
use agent_panel_x.Table.{update_first, checked}
use agent_panel_x.Table.Finding.{find-only, find-narrow, update_first-total}
use agent_panel_x.Table.Checked.{Passes, find-All}
use agent_panel_x.Runtime.{runnable}
use agent_panel_x.Owner.{model, OwnerActivation, is_pending, check_activation}
use agent_panel_x.Owner.Activations.{unfinished_of, running_of, claimable, claimed, claim_next}
use agent_panel_x.Owner.Activations.Reachable.{Reachable, reachable_activations-Sound}
use agent_panel_x.Owner.Lifecycle.{work_state, claim_for_model, claim_model, claimed_or_raise}

find-any :
    (p : OwnerActivation → Bool) (rows : List OwnerActivation)
    → any p rows ≡ true
    → (a : OwnerActivation) × (find p rows ≡ some a)
find-any p [] h = cc
find-any p (x ∷ xs) h = elim (Bool-cases (p x)) [
  | inl yes_x ↦ (x, ground arith)
  | inr no_x ↦ (let (a, e) = find-any p xs (ground arith) in (a, ground (arith, e)))
]

-- A runnable mailbox holds a pending activation with no driver.
runnable-parts :
    (t : String) (rows : List OwnerActivation)
    → work_state t rows ≡ runnable
    → (a : OwnerActivation) × (find (unfinished_of t) rows ≡ some a)
      × (is_pending a.status ≡ true)
      × (a.driver_mode ≡ none)
runnable-parts t rows h = elim (Option-cases (find (unfinished_of t) rows)) [
  | inl nothing ↦ absurd (ground arith)
  | inr (a, e) ↦ (a, e, ground (arith, e), ground (arith, e))
]

-- While the unfinished activation of a Feature waits, none of it runs.
none_running :
    (t : String) (rows : List OwnerActivation) (a : OwnerActivation)
    → Reachable rows
    → find (unfinished_of t) rows ≡ some a
    → is_pending a.status ≡ true
    → any (running_of t) rows ≡ false
none_running t rows a reached found waits = elim (Bool-cases (any (running_of t) rows)) [
  | inr quiet ↦ quiet
  | inl busy ↦
      (let (b, e) = find-any (running_of t) rows busy in
        let runs : running_of t b ≡ true = find-holds (running_of t) rows b e in
        let found_b : find (unfinished_of t) rows ≡ some b =
          find-only (unfinished_of t) (running_of t) rows b
            ((reachable_activations-Sound rows reached).one_unfinished t) e (ground arith) in
        let same : a ≡ b = ground arith in absurd (ground (arith, same)))
]

claimed-Passes :
    (a : OwnerActivation) (n : ℕ)
    → is_pending a.status ≡ true
    → a.driver_mode ≡ none
    → Passes check_activation a
    → Passes check_activation (claimed model n a)
unfolding raising check_activation
claimed-Passes a n waits free valid = ground arith

claim_model-runs :
    (t : String) (n : ℕ) (rows : List OwnerActivation) (old : OwnerActivation)
    (rows' : List OwnerActivation)
    → is_pending old.status ≡ true
    → old.driver_mode ≡ none
    → update_first (claimable t model rows) (claimed model n) rows
      ≡ some (claimed model n old, rows')
    → Passes check_activation (claimed model n old)
    → claim_model t n rows (some old) ≡ ok (some (claimed model n old, rows'))
unfolding raising claim_model claim_next checked claimed_or_raise
claim_model-runs t n rows old rows' waits undriven update valid =
    ground (arith, waits, undriven, update, valid)

-- The claim of a runnable mailbox takes its activation.
pub claim_for_model-runnable :
    (t : String) (n : ℕ) (rows : List OwnerActivation)
    → Reachable rows
    → work_state t rows ≡ runnable
    → (old : OwnerActivation) × (rows' : List OwnerActivation) × (find (unfinished_of t) rows
        ≡ some old)
      × (is_pending old.status ≡ true)
      × (claim_for_model t n rows ≡ ok (some (claimed model n old, rows')))
unfolding claim_for_model
claim_for_model-runnable t n rows reached free =
    let (old, found, waits, undriven) = runnable-parts t rows free in
    let quiet = none_running t rows old reached found waits in
    let home : unfinished_of t old ≡ true = find-holds (unfinished_of t) rows old found in
    let valid =
      find-All (Passes check_activation) _ rows old (reachable_activations-Sound rows reached).valid
        found in
    let fits : claimable t model rows old ≡ true = ground (arith, home, undriven, quiet, waits) in
    let is_claimable : find (claimable t model rows) rows ≡ some old =
      find-narrow (unfinished_of t) (claimable t model rows) rows old (λ x h. ground arith) found
        fits in
    let (rows', update) =
      update_first-total (claimable t model rows) (claimed model n) rows old is_claimable in
    (
      old,
      rows',
      found,
      waits,
      rw found (
          claim_model-runs t n rows old rows' waits undriven update
            (claimed-Passes old n waits undriven valid)),
    )
