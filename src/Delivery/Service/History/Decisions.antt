-- ===== src/Delivery/Service/History/Decisions.antt =====
-- The decisions that the Timeline is searched for, told in the order in which they were published.
use agent_panel_x.Prelude.{
  [], String, ◌≡◌, refl, ap, ◌∙◌, Bool, true, false, ◌||◌, List, ◌∷◌, ◌++◌, arith, if◌then◌else◌,
}
use agent_panel_x.Event.{ExecutionEvent, is_accepted, is_rejected, is_ready, is_revision_requested}
use agent_panel_x.Runtime.{list_by_triage_id}
use agent_panel_x.Delivery.Service.History.{
  reversed, rejection_before, revision_before, has_unaccepted_rejection, has_unaccepted_revision,
}

-- Whether a rejection is open after an event, if one was open before it as `open_before` says: an
-- acceptance closes it.
abbrev pub rejection_after : Bool → ExecutionEvent → Bool
rejection_after open_before e =
    if is_accepted e.event_type
    then false
    else if is_rejected e.event_type
    then true
    else open_before

abbrev pub rejection_open : Bool → List ExecutionEvent → Bool
rejection_open open_before [] = open_before
rejection_open open_before (e ∷ es) = rejection_open (rejection_after open_before e) es

-- How far the revision of a Candidate has come: a decision ends it, and a Candidate that is ready after
-- a request is a revised one.
pub data Phase : Type 0 where
  untouched requested revised : Phase

abbrev made_ready : Phase → Phase
made_ready requested = revised
made_ready phase = phase

abbrev pub phase_after : Phase → ExecutionEvent → Phase
phase_after phase e =
    if is_accepted e.event_type || is_rejected e.event_type
    then untouched
    else if is_ready e.event_type
    then made_ready phase
    else if is_revision_requested e.event_type
    then requested
    else phase

abbrev pub phase_of : Phase → List ExecutionEvent → Phase
phase_of phase [] = phase
phase_of phase (e ∷ es) = phase_of (phase_after phase e) es

abbrev pub is_revised : Phase → Bool
is_revised revised = true
is_revised _ = false

rejection_from : Bool → List ExecutionEvent → Bool
rejection_from last [] = last
rejection_from last (e ∷ es) = rejection_after (rejection_from last es) e

rejection_from-snoc :
    (last : Bool) (es : List ExecutionEvent) (e : ExecutionEvent)
    → rejection_from last (es ++ e ∷ []) ≡ rejection_from (rejection_after last e) es
unfolding rejection_from
rejection_from-snoc last [] e = refl
rejection_from-snoc last (x ∷ es) e =
    ap (λ (b : Bool). rejection_after b x) (rejection_from-snoc last es e)

rejection_from-reversed :
    (last : Bool) (es : List ExecutionEvent)
    → rejection_from last (reversed es) ≡ rejection_open last es
unfolding rejection_from
rejection_from-reversed last [] = refl
rejection_from-reversed last (e ∷ es) =
    rejection_from-snoc last (reversed es) e ∙ rejection_from-reversed (rejection_after last e) es

rejection_before-from : (es : List ExecutionEvent) → rejection_before es ≡ rejection_from false es
unfolding rejection_before rejection_from
rejection_before-from [] = refl
rejection_before-from (e ∷ es) = ap (λ (b : Bool). rejection_after b e) (rejection_before-from es)

-- The search for an unaccepted rejection, from the newest event back, finds one exactly when a rejection
-- is open at the end of the Timeline of the Feature, told forwards: a rejection opens it and an
-- acceptance closes it.
pub has_unaccepted_rejection-open :
    (triage_id : String) (timeline : List ExecutionEvent)
    → has_unaccepted_rejection triage_id timeline
      ≡ rejection_open false (list_by_triage_id triage_id timeline)
unfolding has_unaccepted_rejection
has_unaccepted_rejection-open t timeline =
    rejection_before-from (reversed (list_by_triage_id t timeline))
    ∙ rejection_from-reversed false (list_by_triage_id t timeline)

abbrev settled : Phase → Bool → Bool
settled untouched ready = false
settled requested ready = ready
settled revised ready = true

revision_from : Phase → Bool → List ExecutionEvent → Bool
revision_from last ready [] = settled last ready
revision_from last ready (e ∷ es) =
    let rest = revision_from last (ready || is_ready e.event_type) es in
    if is_accepted e.event_type || is_rejected e.event_type
    then false
    else if is_ready e.event_type
    then rest
    else if is_revision_requested e.event_type
    then ready
    else rest

revision_from-snoc :
    (last : Phase) (ready : Bool) (es : List ExecutionEvent) (e : ExecutionEvent)
    → revision_from last ready (es ++ e ∷ []) ≡ revision_from (phase_after last e) ready es
unfolding revision_from
revision_from-snoc untouched ready [] e = ground arith
revision_from-snoc requested ready [] e = ground arith
revision_from-snoc revised ready [] e = ground arith
revision_from-snoc last ready (x ∷ es) e =
    rw (revision_from-snoc last (ready || is_ready x.event_type) es e) refl

revision_from-reversed :
    (last : Phase) (es : List ExecutionEvent)
    → revision_from last false (reversed es) ≡ is_revised (phase_of last es)
unfolding revision_from
revision_from-reversed untouched [] = refl
revision_from-reversed requested [] = refl
revision_from-reversed revised [] = refl
revision_from-reversed last (e ∷ es) =
    revision_from-snoc last false (reversed es) e ∙ revision_from-reversed (phase_after last e) es

revision_before-from :
    (ready : Bool) (es : List ExecutionEvent)
    → revision_before ready es ≡ revision_from untouched ready es
unfolding revision_before revision_from
revision_before-from ready [] = refl
revision_before-from ready (e ∷ es) =
    rw (revision_before-from (ready || is_ready e.event_type) es) refl

-- The search for an earlier revision, from the newest event back, finds one exactly when the Timeline of
-- the Feature, told forwards, ends with a revised Candidate that is undecided: since the last acceptance
-- or rejection a revision was requested, and a Candidate was ready after the last such request. (A
-- revision that was requested and failed, with no Candidate ready after it, is not found.)
pub has_unaccepted_revision-revised :
    (triage_id : String) (timeline : List ExecutionEvent)
    → has_unaccepted_revision triage_id timeline
      ≡ is_revised (phase_of untouched (list_by_triage_id triage_id timeline))
unfolding has_unaccepted_revision
has_unaccepted_revision-revised t timeline =
    revision_before-from false (reversed (list_by_triage_id t timeline))
    ∙ revision_from-reversed untouched (list_by_triage_id t timeline)
