-- ===== src/State/Validity.antt =====
-- What a state that passes its checks satisfies.
use agent_panel_x.Prelude.{
  raising, String, false, Option, none, some, ◌≡◌, refl, ◌⊎◌, arith, eq_iff, is_blank, ok,
}
use agent_panel_x.State.{ProjectRuntimeState, blocked, post_init}

-- The blocker of a user intervention: either none of its fields, or all of them with BLOCKED status
-- and a status to restore.
pub data Blocker (s : ProjectRuntimeState) : Type 0 where
  absent :
      s.blocked_reason ≡ none
      → s.blocked_capability ≡ none
      → s.blocked_previous_status ≡ none
      → Blocker s
  present :
      (reason capability previous : String)
      → s.blocked_reason ≡ some reason
      → s.blocked_capability ≡ some capability
      → s.blocked_previous_status ≡ some previous
      → is_blank reason ≡ false
      → is_blank capability ≡ false
      → s.status ≡ blocked
      → (previous ≡ "TODO") ⊎ (previous ≡ "IN_PROGRESS")
      → Blocker s

pub record IsValid (s : ProjectRuntimeState) : Type 0 where
  pub identified : is_blank s.triage_id ≡ false
  pub blocker : Blocker s

post_init-cases :
    (s : ProjectRuntimeState) (r c p : Option String)
    → s.blocked_reason ≡ r
    → s.blocked_capability ≡ c
    → s.blocked_previous_status ≡ p
    → post_init s ≡ ok s
    → Blocker s
unfolding raising post_init
post_init-cases s none none none er ec ep h = Blocker.absent er ec ep
post_init-cases s none (some c) p er ec ep h = absurd (ground arith)
post_init-cases s none none (some p) er ec ep h = absurd (ground arith)
post_init-cases s (some r) none p er ec ep h = absurd (ground arith)
post_init-cases s (some r) (some c) none er ec ep h = absurd (ground arith)
post_init-cases s (some r) (some c) (some p) er ec ep h =
    Blocker.present r c p er ec ep (ground arith) (ground arith) (ground arith)
      (ground (arith, eq_iff p "TODO", eq_iff p "IN_PROGRESS"))

pub post_init-identity :
    (s : ProjectRuntimeState) {t : ProjectRuntimeState} → post_init s ≡ ok t → t ≡ s
unfolding raising post_init
post_init-identity s h = ground arith

pub post_init-IsValid : (s : ProjectRuntimeState) → post_init s ≡ ok s → IsValid s
unfolding raising post_init
post_init-IsValid s h = record {
  identified = ground arith;
  blocker = post_init-cases s _ _ _ refl refl refl h;
}
