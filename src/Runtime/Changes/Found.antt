-- ===== src/Runtime/Changes/Found.antt =====
-- How the change of a project's status stands in the changes of its state.

use agent_panel_x.Prelude.{
  [], String, ◌≡◌, refl, ◌∙◌, inl, inr, Bool, true, false, some, List, ◌∷◌, ◌==◌, Bool-cases, find,
}
use agent_panel_x.Event.{FieldValue, FieldChange}
use agent_panel_x.State.{ProjectRuntimeState}
use agent_panel_x.Runtime.Changes.{
  status_value, of_text, field_eq, field_names, field_values, changes_of, state_changes,
}

abbrev pub is_status : FieldChange → Bool
is_status field = field.name == "status"

module _ (p : FieldChange → Bool) (n : String) (ns : List String) (v w : FieldValue)
    (vs ws : List FieldValue) where
  -- A field that is not looked for, and one that has changed and is.
  changes_of-skip :
      p (record { name = n; before = v; after = w }) ≡ false
      → find p (changes_of (n ∷ ns) (v ∷ vs) (w ∷ ws)) ≡ find p (changes_of ns vs ws)
  unfolding changes_of
  changes_of-skip other = elim (Bool-cases (field_eq v w)) [
    | inl same ↦ rw same refl
    | inr changed ↦ rw (changed, other) refl
  ]

  changes_of-here :
      p (record { name = n; before = v; after = w }) ≡ true
      → field_eq v w ≡ false
      → find p (changes_of (n ∷ ns) (v ∷ vs) (w ∷ ws))
        ≡ some (record { name = n; before = v; after = w })
  unfolding changes_of
  changes_of-here this changed = rw (changed, this) refl

abbrev rest : {A : Type 0} → List A → List A
rest [] = []
rest (x ∷ xs) = xs

-- A change of the status is found, with the values before and after.
pub find-state_changes :
    (current updated : ProjectRuntimeState)
    → (status_value current.status == status_value updated.status) ≡ false
    → find is_status (state_changes current updated)
      ≡ some (record {
        name = "status";
        before = FieldValue.text (status_value current.status);
        after = FieldValue.text (status_value updated.status);
      })
unfolding state_changes field_eq
find-state_changes current updated differs =
    let ns = rest field_names in
    let vs = rest (field_values current) in
    let ws = rest (field_values updated) in
    changes_of-skip is_status "triage_id" ns (FieldValue.text current.triage_id)
      (FieldValue.text updated.triage_id) vs ws refl
    ∙ changes_of-skip is_status "idea" (rest ns) (of_text current.idea) (of_text updated.idea)
        (rest vs) (rest ws) refl
    ∙ changes_of-here is_status "status" (rest (rest ns))
        (FieldValue.text (status_value current.status))
        (FieldValue.text (status_value updated.status)) (rest (rest vs)) (rest (rest ws)) refl
        differs
