-- ===== src/Runtime/Changes.antt =====
-- Which fields of the state a transition changed (`_state_changes` of _state.py).
pub mod Found
use agent_panel_x.Prelude.{
  [], raising, ℕ, String, Bool, true, false, Option, none, some, List, ◌∷◌, ◌≡◌, refl, sym, ap, ◌∙◌,
  arith, ◌==◌, eq_iff, leb, ◌&&◌, length, if◌then◌else◌,
}
use agent_panel_x.Event.{FieldValue, FieldChange}
use agent_panel_x.State.{Status, PendingAction, ProjectRuntimeState}

abbrev pub status_value : Status → String
status_value Status.triage = "TRIAGE"
status_value Status.todo = "TODO"
status_value Status.ready = "READY"
status_value Status.in_progress = "IN_PROGRESS"
status_value Status.blocked = "BLOCKED"
status_value Status.done = "DONE"

abbrev pub action_value : PendingAction → String
action_value PendingAction.plan_approval = "PLAN_APPROVAL"
action_value PendingAction.first_run_approval = "FIRST_RUN_APPROVAL"
action_value PendingAction.blocked_run_approval = "BLOCKED_RUN_APPROVAL"

abbrev of_text : Option String → FieldValue
of_text none = FieldValue.null
of_text (some s) = FieldValue.text s

abbrev of_action : Option PendingAction → FieldValue
of_action none = FieldValue.null
of_action (some a) = FieldValue.text (action_value a)

abbrev of_time : Option ℕ → FieldValue
of_time none = FieldValue.null
of_time (some t) = FieldValue.time t

abbrev field_names : List String
field_names =
    "triage_id" ∷ "idea" ∷ "status" ∷ "pending_action" ∷ "git_branch" ∷ "git_main_version"
    ∷ "rolling_started_at" ∷ "current_plan_commit_sha" ∷ "pending_plan_subject_digest"
    ∷ "current_snapshot_id" ∷ "current_run_id" ∷ "current_milestone_key" ∷ "current_stage_key"
    ∷ "current_candidate_commit_sha" ∷ "blocked_reason" ∷ "blocked_capability"
    ∷ "blocked_previous_status" ∷ []

-- The fields in the order of `_STATE_FIELD_NAMES`.
abbrev field_values : ProjectRuntimeState → List FieldValue
field_values s =
    FieldValue.text s.triage_id
    ∷ of_text s.idea
    ∷ FieldValue.text (status_value s.status)
    ∷ of_action s.pending_action
    ∷ of_text s.git_branch
    ∷ of_text s.git_main_version
    ∷ of_time s.rolling_started_at
    ∷ of_text s.current_plan_commit_sha
    ∷ of_text s.pending_plan_subject_digest
    ∷ of_text s.current_snapshot_id
    ∷ of_text s.current_run_id
    ∷ of_text s.current_milestone_key
    ∷ of_text s.current_stage_key
    ∷ of_text s.current_candidate_commit_sha
    ∷ of_text s.blocked_reason
    ∷ of_text s.blocked_capability
    ∷ of_text s.blocked_previous_status
    ∷ []

field_eq : FieldValue → FieldValue → Bool
field_eq FieldValue.null FieldValue.null = true
field_eq (FieldValue.text s) (FieldValue.text t) = s == t
field_eq (FieldValue.time s) (FieldValue.time t) = leb s t && leb t s
field_eq _ _ = false

changes_of : List String → List FieldValue → List FieldValue → List FieldChange
changes_of (n ∷ ns) (v ∷ vs) (w ∷ ws) =
    let rest = changes_of ns vs ws in
    if field_eq v w then rest else record { name = n; before = v; after = w } ∷ rest
changes_of _ _ _ = []

unfoldable pub state_changes : ProjectRuntimeState → ProjectRuntimeState → List FieldChange
unfolding changes_of field_eq
state_changes current updated = changes_of field_names (field_values current) (field_values updated)

field_eq-eq : (v w : FieldValue) → field_eq v w ≡ true → v ≡ w
unfolding raising field_eq
field_eq-eq FieldValue.null FieldValue.null h = refl
field_eq-eq FieldValue.null (FieldValue.text t) h = cc
field_eq-eq FieldValue.null (FieldValue.time t) h = cc
field_eq-eq (FieldValue.text s) FieldValue.null h = cc
field_eq-eq (FieldValue.text s) (FieldValue.text t) h = ground (arith, eq_iff s t)
field_eq-eq (FieldValue.text s) (FieldValue.time t) h = cc
field_eq-eq (FieldValue.time s) FieldValue.null h = cc
field_eq-eq (FieldValue.time s) (FieldValue.text t) h = cc
field_eq-eq (FieldValue.time s) (FieldValue.time t) h = ground arith

changes_of-nil :
    (ns : List String) (vs ws : List FieldValue)
    → length ns ≡ length vs
    → length vs ≡ length ws
    → changes_of ns vs ws ≡ []
    → vs ≡ ws
unfolding raising changes_of
changes_of-nil [] [] [] p q h = refl
changes_of-nil [] [] (w ∷ ws) p q h = absurd (omega arith)
changes_of-nil [] (v ∷ vs) ws p q h = absurd (omega arith)
changes_of-nil (n ∷ ns) [] ws p q h = absurd (omega arith)
changes_of-nil (n ∷ ns) (v ∷ vs) [] p q h = absurd (omega arith)
changes_of-nil (n ∷ ns) (v ∷ vs) (w ∷ ws) p q h =
    ground (arith, field_eq-eq v w, changes_of-nil ns vs ws)

of_text-injective : (a b : Option String) → of_text a ≡ of_text b → a ≡ b
of_text-injective none none h = refl
of_text-injective none (some b) h = cc
of_text-injective (some a) none h = cc
of_text-injective (some a) (some b) h = cc

of_time-injective : (a b : Option ℕ) → of_time a ≡ of_time b → a ≡ b
of_time-injective none none h = refl
of_time-injective none (some b) h = cc
of_time-injective (some a) none h = cc
of_time-injective (some a) (some b) h = cc

-- Two states with the same rendered fields are the same state.
status_of : String → Status
status_of s =
    if s == "TRIAGE"
    then Status.triage
    else if s == "TODO"
    then Status.todo
    else if s == "READY"
    then Status.ready
    else if s == "IN_PROGRESS"
    then Status.in_progress
    else if s == "BLOCKED"
    then Status.blocked
    else Status.done

status_of-status_value : (s : Status) → status_of (status_value s) ≡ s
unfolding raising status_of
status_of-status_value Status.triage = refl
status_of-status_value _ = refl

action_of : FieldValue → Option PendingAction
action_of (FieldValue.text s) =
    if s == "PLAN_APPROVAL"
    then some PendingAction.plan_approval
    else if s == "FIRST_RUN_APPROVAL"
    then some PendingAction.first_run_approval
    else some PendingAction.blocked_run_approval
action_of _ = none

action_of-of_action : (a : Option PendingAction) → action_of (of_action a) ≡ a
unfolding raising action_of
action_of-of_action none = refl
action_of-of_action (some PendingAction.plan_approval) = refl
action_of-of_action (some PendingAction.first_run_approval) = refl
action_of-of_action (some PendingAction.blocked_run_approval) = refl

status_value-injective : (a b : Status) → status_value a ≡ status_value b → a ≡ b
status_value-injective a b h =
    sym (status_of-status_value a) ∙ ap status_of h ∙ status_of-status_value b

of_action-injective : (a b : Option PendingAction) → of_action a ≡ of_action b → a ≡ b
of_action-injective a b h = sym (action_of-of_action a) ∙ ap action_of h ∙ action_of-of_action b

field_values-injective : (c u : ProjectRuntimeState) → field_values c ≡ field_values u → c ≡ u
field_values-injective c u e = λ i. record {
  triage_id = (let p : c.triage_id ≡ u.triage_id = cc in p) i;
  idea = of_text-injective c.idea u.idea (cc) i;
  status = status_value-injective c.status u.status (cc) i;
  pending_action = of_action-injective c.pending_action u.pending_action (cc) i;
  git_branch = of_text-injective c.git_branch u.git_branch (cc) i;
  git_main_version = of_text-injective c.git_main_version u.git_main_version (cc) i;
  rolling_started_at = of_time-injective c.rolling_started_at u.rolling_started_at (cc) i;
  current_plan_commit_sha =
      of_text-injective c.current_plan_commit_sha u.current_plan_commit_sha (cc) i;
  pending_plan_subject_digest =
      of_text-injective c.pending_plan_subject_digest u.pending_plan_subject_digest (cc) i;
  current_snapshot_id = of_text-injective c.current_snapshot_id u.current_snapshot_id (cc) i;
  current_run_id = of_text-injective c.current_run_id u.current_run_id (cc) i;
  current_milestone_key = of_text-injective c.current_milestone_key u.current_milestone_key (cc) i;
  current_stage_key = of_text-injective c.current_stage_key u.current_stage_key (cc) i;
  current_candidate_commit_sha =
      of_text-injective c.current_candidate_commit_sha u.current_candidate_commit_sha (cc) i;
  blocked_reason = of_text-injective c.blocked_reason u.blocked_reason (cc) i;
  blocked_capability = of_text-injective c.blocked_capability u.blocked_capability (cc) i;
  blocked_previous_status =
      of_text-injective c.blocked_previous_status u.blocked_previous_status (cc) i;
}

-- A change list is empty only when no field differs.
pub state_changes-nil :
    (current updated : ProjectRuntimeState) → state_changes current updated ≡ [] → current ≡ updated
unfolding raising state_changes
state_changes-nil current updated h =
    field_values-injective current updated
      (changes_of-nil field_names (field_values current) (field_values updated) refl refl h)

field_eq_refl : (v : FieldValue) → field_eq v v ≡ true
unfolding raising field_eq
field_eq_refl FieldValue.null = refl
field_eq_refl (FieldValue.text s) = ground (arith, eq_iff s s)
field_eq_refl (FieldValue.time t) = ground arith

changes_of_same : (ns : List String) (vs : List FieldValue) → changes_of ns vs vs ≡ []
unfolding raising changes_of
changes_of_same [] vs = refl
changes_of_same (n ∷ ns) [] = refl
changes_of_same (n ∷ ns) (v ∷ vs) = rw (field_eq_refl v) (changes_of_same ns vs)

pub state_changes_same : (s : ProjectRuntimeState) → state_changes s s ≡ []
unfolding state_changes
state_changes_same s = changes_of_same field_names (field_values s)
