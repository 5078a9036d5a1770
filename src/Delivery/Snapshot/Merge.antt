-- ===== src/Delivery/Snapshot/Merge.antt =====
-- What merging a new pending View keeps.
use agent_panel_x.Prelude.{
  [], raising, String, ◌≡◌, refl, ap, ◌∙◌, Bool, true, false, some, List, ◌∷◌, ◌++◌, arith, head?,
  filter, any, all, find, filter-append, ok,
}
use agent_panel_x.Delivery.Models.{
  Milestone, MilestoneSnapshot, is_pending, is_completed, occurs, unique, milestone_keys,
}
use agent_panel_x.Delivery.Snapshot.{completed_milestones, merge_pending_milestones}
use agent_panel_x.Delivery.Snapshot.Keys.{unique-append, milestone_keys-append}

-- A key of a filtered View is a key of the View.
occurs-filter :
    (p : Milestone → Bool) (k : String) (ms : List Milestone)
    → occurs k (milestone_keys ms) ≡ false
    → occurs k (milestone_keys (filter p ms)) ≡ false
occurs-filter p k [] h = refl
occurs-filter p k (m ∷ ms) h = ground (arith, occurs-filter p k ms)

unique-filter :
    (p : Milestone → Bool) (ms : List Milestone)
    → unique (milestone_keys ms) ≡ true
    → unique (milestone_keys (filter p ms)) ≡ true
unique-filter p [] h = refl
unique-filter p (m ∷ ms) h = ground (arith, occurs-filter p m.key ms, unique-filter p ms)

filter-none_completed :
    (ps : List Milestone) → all is_pending ps ≡ true → filter is_completed ps ≡ []
filter-none_completed [] h = refl
filter-none_completed (m ∷ ps) h = ground (arith, filter-none_completed ps)

filter_idem :
    (ms : List Milestone) → filter is_completed (filter is_completed ms) ≡ filter is_completed ms
filter_idem [] = refl
filter_idem (m ∷ ms) = ground (arith, filter_idem ms)

find-append_completed :
    (ms ps : List Milestone)
    → all is_pending ps ≡ true
    → find is_pending (filter is_completed ms ++ ps) ≡ head? ps
find-append_completed [] [] h = refl
find-append_completed [] (p ∷ ps) h = ground arith
find-append_completed (m ∷ ms) ps h = ground (arith, find-append_completed ms ps)

append_nil : (ms : List Milestone) → ms ++ [] ≡ ms
append_nil [] = refl
append_nil (m ∷ ms) = ap (λ (t : List Milestone). m ∷ t) (append_nil ms)

-- A new View of pending Milestones that merges into a Snapshot with distinct keys keeps every
-- completed Milestone, in order; the first new Milestone is the next one to run; and the keys of the
-- merged View are again distinct.
pub merge_keeps_completed :
    (previous : MilestoneSnapshot) (ps view : List Milestone)
    → unique (milestone_keys previous.milestones) ≡ true
    → all is_pending ps ≡ true
    → merge_pending_milestones (some previous) ps ≡ ok view
    → (filter is_completed view ≡ completed_milestones previous)
      × (find is_pending view ≡ head? ps)
      × (unique (milestone_keys view) ≡ true)
unfolding raising merge_pending_milestones
merge_keeps_completed previous ps view u pend h =
    let old : List Milestone = completed_milestones previous in
    let e : view ≡ old ++ ps = ground arith in
    let fresh : any (λ k. occurs k (milestone_keys ps)) (milestone_keys old) ≡ false =
      ground arith in
    let distinct : unique (milestone_keys ps) ≡ true = ground arith in
    (
      rw e (
          rw (filter-append is_completed old ps, filter-none_completed ps pend)
            (append_nil (filter is_completed old) ∙ filter_idem previous.milestones)),
      rw e (find-append_completed previous.milestones ps pend),
      rw (e, milestone_keys-append old ps, unique-append (milestone_keys old) (milestone_keys ps))
          (ground (arith, fresh, distinct, unique-filter is_completed previous.milestones u)),
    )
