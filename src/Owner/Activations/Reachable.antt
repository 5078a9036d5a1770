-- ===== src/Owner/Activations/Reachable.antt =====
-- The tables of activations that the operations of the repository can reach.
use mathlib.Core.Path.{subst}
use agent_panel_x.Prelude.{
  [], le_trans, ℕ, ◌≤◌, String, ◌≡◌, refl, ◌∙◌, sym, inl, inr, Bool, true, false, Option, some,
  List, map, arith, eq_iff, Option-cases, filter, count, All, is_blank, raising, ok, Result-cases,
}
use agent_panel_x.Table.{place, update_first, check_rows}
use agent_panel_x.Table.Updates.{
  count-place, find-none-count, update_first-count, count-update_first, update_first-found,
  count-amend_le, count-amend,
}
use agent_panel_x.Table.Checked.{
  Passes, All-place, All-update_first, All-amend, checked-some, checked-raised, check_rows-All,
  find-All,
}
use agent_panel_x.Owner.{
  OwnerActivationStatus, OwnerActivationMode, OwnerActivation, is_unfinished, check_activation,
}
use agent_panel_x.Owner.Checks.{check_activation-identity, check_activation-summary}
use agent_panel_x.Owner.Activations.{
  row_before, unfinished_of, has_id, has_message, insert, interruptible, requested,
  request_interrupt, claimable, claimed, claim_next, running_with_id, finished, finish, summarized,
  set_initial_summary, abandoned, abandon, fail_unfinished, tool_with_id, released, release_tool,
}

-- A table is reached from the empty one by insertions of rows that passed their checks and by the
-- updates of the repository.
pub data Reachable : List OwnerActivation → Type 0 where
  start : Reachable []
  inserting :
      (a : OwnerActivation) (rows rows' : List OwnerActivation)
      → Reachable rows
      → check_activation a ≡ ok a
      → insert a rows ≡ ok rows'
      → Reachable rows'
  interrupting :
      (triage_id : String) (a : OwnerActivation) (rows rows' : List OwnerActivation)
      → Reachable rows
      → request_interrupt triage_id rows ≡ ok (some (a, rows'))
      → Reachable rows'
  claiming :
      (triage_id : String) (started_at : ℕ) (mode : OwnerActivationMode) (a : OwnerActivation)
      (rows rows' : List OwnerActivation)
      → Reachable rows
      → claim_next triage_id started_at mode rows ≡ ok (some (a, rows'))
      → Reachable rows'
  ending :
      (activation_id : String) (status : OwnerActivationStatus) (finished_at : ℕ)
      (failure : Option String) (a : OwnerActivation) (rows rows' : List OwnerActivation)
      → Reachable rows
      → is_unfinished status ≡ false
      → finish activation_id status finished_at failure rows ≡ ok (a, rows')
      → Reachable rows'
  summarizing :
      (activation_id summary_id : String) (rows rows' : List OwnerActivation)
      → Reachable rows
      → is_blank summary_id ≡ false
      → set_initial_summary activation_id summary_id rows ≡ ok rows'
      → Reachable rows'
  releasing :
      (activation_id : String) (a : OwnerActivation) (rows rows' : List OwnerActivation)
      → Reachable rows
      → release_tool activation_id rows ≡ ok (a, rows')
      → Reachable rows'
  failing :
      (triage_id : String) (finished_at : ℕ) (failure : String)
      (failed_rows rows rows' : List OwnerActivation)
      → Reachable rows
      → fail_unfinished triage_id finished_at failure rows ≡ ok (failed_rows, rows')
      → Reachable rows'

-- The invariant of the table.
pub record IsSound (rows : List OwnerActivation) : Type 0 where
  pub one_unfinished : (triage_id : String) → count (unfinished_of triage_id) rows ≤ 1
  pub one_each : (activation_id : String) → count (has_id activation_id) rows ≤ 1
  pub one_message :
      (triage_id message_id : String) → count (has_message triage_id message_id) rows ≤ 1
  pub valid : All (Passes check_activation) rows

insert-Sound :
    (a : OwnerActivation) (rows rows' : List OwnerActivation)
    → IsSound rows
    → Passes check_activation a
    → insert a rows ≡ ok rows'
    → IsSound rows'
unfolding raising insert
insert-Sound a rows rows' sound valid e = record {
  one_unfinished = λ t. ground (
    arith,
    sound.one_unfinished t,
    count-place row_before (unfinished_of t) a rows,
    find-none-count (unfinished_of a.triage_id) rows,
    eq_iff a.triage_id t,
  );
  one_each = λ k. ground (
    arith,
    sound.one_each k,
    count-place row_before (has_id k) a rows,
    find-none-count (has_id a.activation_id) rows,
    eq_iff a.activation_id k,
  );
  one_message = λ t m. ground (
    arith,
    sound.one_message t m,
    count-place row_before (has_message t m) a rows,
    find-none-count (has_message a.triage_id a.message_id) rows,
    eq_iff a.triage_id t,
    eq_iff a.message_id m,
  );
  valid =
      (let same : place row_before a rows ≡ rows' = ground arith in
        subst (All (Passes check_activation)) same
          (All-place check_activation row_before a rows valid sound.valid));
}

-- An update of one row that keeps its identity, its Feature and its message, starts no finished
-- work and passes the checks keeps the table sound.
update-Sound :
    (picks : OwnerActivation → Bool) (change : OwnerActivation → OwnerActivation)
    → ((a : OwnerActivation) → (change a).activation_id ≡ a.activation_id)
    → ((a : OwnerActivation) → (change a).triage_id ≡ a.triage_id)
    → ((a : OwnerActivation) → (change a).message_id ≡ a.message_id)
    → ((a : OwnerActivation)
        → picks a ≡ true
        → is_unfinished (change a).status ≡ true
        → is_unfinished a.status ≡ true)
    → (rows rows' : List OwnerActivation) (a : OwnerActivation)
    → update_first picks change rows ≡ some (a, rows')
    → Passes check_activation a
    → IsSound rows
    → IsSound rows'
update-Sound picks change same_id same_triage same_message started rows rows' a e valid sound =
    record {
      one_unfinished = λ t.
          le_trans
            (update_first-count (unfinished_of t) picks change
              (λ x picked active. ground (arith, same_triage x, started x)) rows rows' a e)
            (sound.one_unfinished t);
      one_each = λ k.
          subst (λ (n : ℕ). n ≤ 1)
            (sym (
              count-update_first (has_id k) picks change (λ x picked. rw (same_id x)) rows rows' a
                e))
            (sound.one_each k);
      one_message = λ t m.
          subst (λ (n : ℕ). n ≤ 1)
            (sym (
              count-update_first (has_message t m) picks change
                (λ x picked. rw (same_triage x, same_message x)) rows rows' a e))
            (sound.one_message t m);
      valid = All-update_first check_activation picks change rows rows' a e valid sound.valid;
    }

pub fail_unfinished-parts :
    (t : String) (n : ℕ) (failure : String) (failed_rows rows rows' : List OwnerActivation)
    → fail_unfinished t n failure rows ≡ ok (failed_rows, rows')
    → (failed_rows ≡ map (abandon t n failure) (filter (unfinished_of t) rows))
      × (rows' ≡ map (abandon t n failure) rows)
      × All (Passes check_activation) (map (abandon t n failure) (filter (unfinished_of t) rows))
unfolding raising fail_unfinished
fail_unfinished-parts t n failure failed_rows rows rows' h =
    elim (Result-cases
      (check_rows check_activation (map (abandon t n failure) (filter (unfinished_of t) rows)))) [
        | inl (rs, e) ↦
            (let (same, valid) = check_rows-All check_activation check_activation-identity _ rs e in
              let given : rs ≡ failed_rows = ground (arith, e) in
              (sym given ∙ same, ground (arith, e), valid))
        | inr (x, e) ↦ absurd (ground (arith, e))
      ]

set_initial_summary-parts :
    (activation_id summary_id : String) (rows rows' : List OwnerActivation)
    → set_initial_summary activation_id summary_id rows ≡ ok rows'
    → (a : OwnerActivation) × (update_first
          (running_with_id activation_id)
          (λ x. record x { summary_id = some summary_id })
          rows
        ≡ some (a, rows'))
unfolding raising set_initial_summary summarized
set_initial_summary-parts activation_id summary_id rows rows' e =
    elim (Option-cases (
      update_first (running_with_id activation_id) (λ x. record x { summary_id = some summary_id })
        rows)) [
          | inl nothing ↦ absurd (ground (arith, nothing))
          | inr ((a, rest), found) ↦ (a, ground (arith, found))
        ]

-- In every table of activations that the repository reaches, a Feature has at most one unfinished
-- activation, an identity and a message of a Feature are each those of at most one activation, and
-- every row passes the checks of its class.
pub reachable_activations-Sound : (rows : List OwnerActivation) → Reachable rows → IsSound rows
unfolding request_interrupt claim_next finish release_tool
reachable_activations-Sound rows Reachable.start = record {
  one_unfinished = λ t. omega arith;
  one_each = λ k. omega arith;
  one_message = λ t m. omega arith;
  valid = tt;
}
reachable_activations-Sound rows' (Reachable.inserting a rows _ reached valid e) =
    insert-Sound a rows rows' (reachable_activations-Sound rows reached) valid e
reachable_activations-Sound rows' (Reachable.interrupting t a rows _ reached e) =
    let (update, valid) = checked-some check_activation check_activation-identity _ a rows' e in
    update-Sound (interruptible t) requested (λ x. refl) (λ x. refl) (λ x. refl)
      (λ x picked active. active) rows rows' a update valid
      (reachable_activations-Sound rows reached)
reachable_activations-Sound rows' (Reachable.claiming t n mode a rows _ reached e) =
    let (update, valid) = checked-some check_activation check_activation-identity _ a rows' e in
    update-Sound (claimable t mode rows) (claimed mode n) (λ x. refl) (λ x. refl) (λ x. refl)
      (λ x picked active. ground arith) rows rows' a update valid
      (reachable_activations-Sound rows reached)
reachable_activations-Sound rows'
      (Reachable.ending id status n failure a rows _ reached terminal e) =
    let (update, valid) = checked-raised check_activation check_activation-identity _ _ a rows' e in
    update-Sound (running_with_id id) (finished status n failure) (λ x. refl) (λ x. refl)
      (λ x. refl) (λ x picked active. ground arith) rows rows' a update valid
      (reachable_activations-Sound rows reached)
reachable_activations-Sound rows' (Reachable.summarizing id s rows _ reached filled e) =
    let (a, update) = set_initial_summary-parts id s rows rows' e in
    let sound = reachable_activations-Sound rows reached in
    let (old, is_old, made) = update_first-found _ _ rows rows' a update in
    let valid : Passes check_activation a = subst (Passes check_activation) (sym made) (
      check_activation-summary old s filled
        (find-All (Passes check_activation) _ rows old sound.valid is_old)) in
    update-Sound (running_with_id id) (λ x. record x { summary_id = some s }) (λ x. refl)
      (λ x. refl) (λ x. refl) (λ x picked active. active) rows rows' a update valid sound
reachable_activations-Sound rows' (Reachable.releasing id a rows _ reached e) =
    let (update, valid) = checked-raised check_activation check_activation-identity _ _ a rows' e in
    update-Sound (tool_with_id id) released (λ x. refl) (λ x. refl) (λ x. refl)
      (λ x picked active. ground arith) rows rows' a update valid
      (reachable_activations-Sound rows reached)
reachable_activations-Sound rows' (Reachable.failing t n failure failed_rows rows _ reached e) =
    let sound : IsSound rows = reachable_activations-Sound rows reached in
    let (_, same, checked_ones) = fail_unfinished-parts t n failure failed_rows rows rows' e in
    subst IsSound (sym same) (record {
      one_unfinished = λ k.
          le_trans
            (count-amend_le (unfinished_of k) (unfinished_of t) (abandoned n failure)
              (λ x picked active. ground arith) rows)
            (sound.one_unfinished k);
      one_each = λ k.
          subst (λ (m : ℕ). m ≤ 1)
            (sym (
              count-amend (has_id k) (unfinished_of t) (abandoned n failure) (λ x picked. refl)
                rows))
            (sound.one_each k);
      one_message = λ k i.
          subst (λ (m : ℕ). m ≤ 1)
            (sym (
              count-amend (has_message k i) (unfinished_of t) (abandoned n failure)
                (λ x picked. refl) rows))
            (sound.one_message k i);
      valid =
          All-amend check_activation (unfinished_of t) (abandoned n failure) rows sound.valid
            checked_ones;
    })
