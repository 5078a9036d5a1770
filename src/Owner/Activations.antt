-- ===== src/Owner/Activations.antt =====
-- The table of Owner activations
-- (src/agentplanex/infrastructure/sqlite/repositories/owner_activation.py), with its primary key and its
-- two unique indexes (src/agentplanex/infrastructure/sqlite/schema.py): one unfinished activation of a
-- Feature, and one activation for a message. The rows are kept in the order of the queries,
-- `created_at, activation_id`.
pub mod Reachable
use Prim.Native.String.{compare}
use Prim.Native.Nat.{Ordering, compare as compare_nat}
use agent_panel_x.Prelude.{
  ◌>>=◌, ◌>>◌, ℕ, String, Bool, true, false, not, ◌&&◌, ◌||◌, Option, none, some, List, map, ◌==◌,
  is_none, is_some, filter, find, last?, any, is_blank, value_error, lookup_error, integrity_error,
  runtime_error, Result, ok, raise_if, or_raise,
}
use agent_panel_x.Table.{place, update_first, amend, checked, check_rows}
use agent_panel_x.Owner.{
  OwnerActivationStatus, pending, running, completed, failed, interrupted, OwnerActivationMode,
  model, tool, OwnerActivation, is_pending, is_running, is_unfinished, is_tool, is_model,
  check_activation,
}

-- `ORDER BY created_at, activation_id`: whether the first row comes before the second.
unfoldable pub row_before : OwnerActivation → OwnerActivation → Bool
row_before a b = elim (compare_nat a.created_at b.created_at) [
  | Ordering.lt ↦ true
  | Ordering.eq ↦ elim (compare a.activation_id b.activation_id) [ Ordering.lt ↦ true | _ ↦ false ]
  | Ordering.gt ↦ false
]

abbrev pub unfinished_of : String → OwnerActivation → Bool
unfinished_of triage_id a = a.triage_id == triage_id && is_unfinished a.status

abbrev pub has_id : String → OwnerActivation → Bool
has_id activation_id a = a.activation_id == activation_id

abbrev pub has_message : String → String → OwnerActivation → Bool
has_message triage_id message_id a = a.triage_id == triage_id && a.message_id == message_id

-- `get`, `get_unfinished` and `get_latest`.
abbrev pub get : String → List OwnerActivation → Option OwnerActivation
get activation_id = find (has_id activation_id)

abbrev pub get_unfinished : String → List OwnerActivation → Option OwnerActivation
get_unfinished triage_id = find (unfinished_of triage_id)

abbrev pub get_latest : String → List OwnerActivation → Option OwnerActivation
get_latest triage_id rows = last? (filter (λ a. a.triage_id == triage_id) rows)

-- `insert`: the primary key and the two unique indexes refuse a row.
unfoldable pub insert : OwnerActivation → List OwnerActivation → Result (List OwnerActivation)
unfolding row_before
insert a rows = do
  raise_if (is_some (get a.activation_id rows)) (integrity_error "owner_activation.activation_id")
  raise_if (is_unfinished a.status && is_some (get_unfinished a.triage_id rows))
      (integrity_error "owner_activation_one_unfinished_idx")
  raise_if (is_some (find (has_message a.triage_id a.message_id) rows))
      (integrity_error "owner_activation_message_idx")
  ok (place row_before a rows)

-- `request_interrupt`: the running Model activation of the Feature, if there is one.
abbrev pub interruptible : String → OwnerActivation → Bool
interruptible triage_id a =
    a.triage_id == triage_id && (is_running a.status && is_model a.driver_mode)

abbrev pub requested : OwnerActivation → OwnerActivation
requested a = record a { interrupt_requested = true }

unfoldable pub request_interrupt :
    String → List OwnerActivation → Result (Option (OwnerActivation × List OwnerActivation))
request_interrupt triage_id rows =
    checked check_activation (update_first (interruptible triage_id) requested rows)

-- `is_interrupt_requested`.
requested_in : Option OwnerActivation → Bool
requested_in none = false
requested_in (some a) = a.interrupt_requested

unfoldable pub is_interrupt_requested : String → List OwnerActivation → Bool
unfolding requested_in
is_interrupt_requested activation_id rows = requested_in (get activation_id rows)

-- `claim_next`: the candidate of the inner SELECT, and the update.
abbrev pub is_tool_mode : OwnerActivationMode → Bool
is_tool_mode tool = true
is_tool_mode model = false

abbrev pub running_of : String → OwnerActivation → Bool
running_of triage_id a = a.triage_id == triage_id && is_running a.status

abbrev pub claimable : String → OwnerActivationMode → List OwnerActivation → OwnerActivation → Bool
claimable triage_id mode rows a =
    (a.triage_id == triage_id && is_pending a.status)
    && ((is_none a.driver_mode || (is_tool_mode mode && is_tool a.driver_mode))
        && not (any (running_of triage_id) rows))

abbrev pub coalesce {ℓ} : {A : Type ℓ} → Option A → A → Option A
coalesce (some a) b = some a
coalesce none b = some b

abbrev pub claimed : OwnerActivationMode → ℕ → OwnerActivation → OwnerActivation
claimed mode started_at a = record a {
  status = running;
  driver_mode = some mode;
  started_at = coalesce a.started_at started_at;
}

unfoldable pub claim_next :
    String
    → ℕ
    → OwnerActivationMode
    → List OwnerActivation
    → Result (Option (OwnerActivation × List OwnerActivation))
claim_next triage_id started_at mode rows =
    checked check_activation
      (update_first (claimable triage_id mode rows) (claimed mode started_at) rows)

-- `_finish`.
abbrev pub running_with_id : String → OwnerActivation → Bool
running_with_id activation_id a = a.activation_id == activation_id && is_running a.status

abbrev pub finished : OwnerActivationStatus → ℕ → Option String → OwnerActivation → OwnerActivation
finished status finished_at failure a = record a {
  status = status;
  finished_at = some finished_at;
  failure = failure;
  interrupt_requested = false;
}

unfoldable pub finish :
    String
    → OwnerActivationStatus
    → ℕ
    → Option String
    → List OwnerActivation
    → Result (OwnerActivation × List OwnerActivation)
finish activation_id status finished_at failure rows = do
  row ←
      checked check_activation
        (update_first (running_with_id activation_id) (finished status finished_at failure) rows)
  or_raise row (lookup_error "Running Owner activation not found")

unfoldable pub mark_completed :
    String → ℕ → List OwnerActivation → Result (OwnerActivation × List OwnerActivation)
mark_completed activation_id finished_at = finish activation_id completed finished_at none

unfoldable pub mark_interrupted :
    String → ℕ → List OwnerActivation → Result (OwnerActivation × List OwnerActivation)
mark_interrupted activation_id finished_at = finish activation_id interrupted finished_at none

unfoldable pub mark_failed :
    String → ℕ → String → List OwnerActivation → Result (OwnerActivation × List OwnerActivation)
mark_failed activation_id finished_at failure rows = do
  raise_if (is_blank failure) (value_error "Activation failure must not be empty")
  finish activation_id failed finished_at (some failure) rows

-- `set_initial_summary`: the row is not read back.
summarized : Option (OwnerActivation × List OwnerActivation) → Option (List OwnerActivation)
summarized none = none
summarized (some (a, rows)) = some rows

unfoldable pub set_initial_summary :
    String → String → List OwnerActivation → Result (List OwnerActivation)
unfolding summarized
set_initial_summary activation_id summary_id rows =
    or_raise
      (summarized (
        update_first (running_with_id activation_id)
          (λ a. record a { summary_id = some summary_id }) rows))
      (runtime_error "Running Owner activation not found")

-- `fail_unfinished`: every unfinished row of the Feature, failed, with the table after it.
abbrev pub abandoned : ℕ → String → OwnerActivation → OwnerActivation
abandoned finished_at failure a = record a {
  status = failed;
  driver_mode = coalesce a.driver_mode model;
  finished_at = some finished_at;
  failure = some failure;
  interrupt_requested = false;
}

abbrev pub abandon : String → ℕ → String → OwnerActivation → OwnerActivation
abandon triage_id finished_at failure =
    amend (unfinished_of triage_id) (abandoned finished_at failure)

unfoldable pub fail_unfinished :
    String
    → ℕ
    → String
    → List OwnerActivation
    → Result (List OwnerActivation × List OwnerActivation)
fail_unfinished triage_id finished_at failure rows = do
  raise_if (is_blank failure) (value_error "Activation failure must not be empty")
  failed_rows ←
      check_rows check_activation
        (map (abandon triage_id finished_at failure) (filter (unfinished_of triage_id) rows))
  ok (failed_rows, map (abandon triage_id finished_at failure) rows)

-- `release_tool`: the running Tool row waits for the next step.
abbrev pub tool_with_id : String → OwnerActivation → Bool
tool_with_id activation_id a =
    a.activation_id == activation_id && (is_running a.status && is_tool a.driver_mode)

abbrev pub released : OwnerActivation → OwnerActivation
released a = record a { status = pending }

unfoldable pub release_tool :
    String → List OwnerActivation → Result (OwnerActivation × List OwnerActivation)
release_tool activation_id rows = do
  row ← checked check_activation (update_first (tool_with_id activation_id) released rows)
  or_raise row (lookup_error "Running Tool Owner activation not found")
