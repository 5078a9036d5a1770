-- ===== src/Delivery/Service/History.antt =====
-- What the Timeline says of earlier Candidate decisions (`_has_unaccepted_candidate_rejection` and
-- `_has_unaccepted_candidate_revision` of _service.py).
pub mod Decisions
use agent_panel_x.Prelude.{[], String, Bool, true, false, ◌||◌, List, ◌∷◌, ◌++◌, if◌then◌else◌}
use agent_panel_x.Event.{ExecutionEvent, is_accepted, is_rejected, is_ready, is_revision_requested}
use agent_panel_x.Runtime.{list_by_triage_id}

-- `reversed(events)`.
abbrev pub reversed : List ExecutionEvent → List ExecutionEvent
reversed [] = []
reversed (e ∷ es) = reversed es ++ e ∷ []

-- The two loops over the events, the newest first.
unfoldable pub rejection_before : List ExecutionEvent → Bool
rejection_before [] = false
rejection_before (e ∷ es) =
    let rest = rejection_before es in
    if is_accepted e.event_type then false else if is_rejected e.event_type then true else rest

unfoldable pub revision_before : Bool → List ExecutionEvent → Bool
revision_before candidate_ready [] = false
revision_before candidate_ready (e ∷ es) =
    let rest = revision_before (candidate_ready || is_ready e.event_type) es in
    if is_accepted e.event_type || is_rejected e.event_type
    then false
    else if is_ready e.event_type
    then rest
    else if is_revision_requested e.event_type
    then candidate_ready
    else rest

unfoldable pub has_unaccepted_rejection : String → List ExecutionEvent → Bool
unfolding rejection_before
has_unaccepted_rejection triage_id timeline =
    rejection_before (reversed (list_by_triage_id triage_id timeline))

unfoldable pub has_unaccepted_revision : String → List ExecutionEvent → Bool
unfolding revision_before
has_unaccepted_revision triage_id timeline =
    revision_before false (reversed (list_by_triage_id triage_id timeline))
