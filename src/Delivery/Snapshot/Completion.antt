-- ===== src/Delivery/Snapshot/Completion.antt =====
-- What completing a Milestone does to a Snapshot.
use agent_panel_x.Prelude.{
  [], raising, ℕ, ◌+◌, String, ◌≡◌, refl, ap, inl, inr, Bool, true, false, ◌||◌, Option, some, List,
  ◌∷◌, ◌++◌, arith, ◌==◌, eq_iff, Bool-cases, all, find, count, is_blank, ok, Result-cases,
}
use agent_panel_x.Delivery.Models.{
  completed, Milestone, MilestoneSnapshot, is_pending, is_completed, require_text, occurs, unique,
  milestone_keys, require_unique, is_empty, check_snapshot,
}
use agent_panel_x.Delivery.Snapshot.Keys.{unique-split, milestone_keys-append}
use agent_panel_x.Delivery.Snapshot.{first_pending, complete_loop, with_completed_milestone}

-- A list cut at its first pending Milestone.
pub record Cut (ms : List Milestone) (m : Milestone) : Type 0 where
  pub before : List Milestone
  pub after : List Milestone
  pub joined : ms ≡ before ++ m ∷ after
  pub done_before : all is_completed before ≡ true
  pub is_next : is_pending m ≡ true

find-Cut : (ms : List Milestone) (m : Milestone) → find is_pending ms ≡ some m → Cut ms m
find-Cut [] m h = cc
find-Cut (x ∷ xs) m h = elim (Bool-cases (is_pending x)) [
  | inl p ↦ record {
    before = [];
    after = xs;
    joined = ground arith;
    done_before = refl;
    is_next = ground arith;
  }
  | inr q ↦
      (let cut = find-Cut xs m (ground arith) in
        record {
          before = x ∷ cut.before;
          after = cut.after;
          joined = ap (λ (t : List Milestone). x ∷ t) cut.joined;
          done_before = ground (arith, cut.done_before);
          is_next = cut.is_next;
        })
]

-- The key of a Milestone that is in no list is left alone by the loop.
complete_loop-absent :
    (key : String) (found : Bool) (ms : List Milestone)
    → occurs key (milestone_keys ms) ≡ false
    → complete_loop key found ms ≡ ok (found, ms)
unfolding raising complete_loop
complete_loop-absent key found [] h = refl
complete_loop-absent key found (m ∷ ms) h = ground (arith, complete_loop-absent key found ms)

abbrev pub complete : Milestone → Milestone
complete m = record m { state = completed }

complete_loop-Cut :
    (before after : List Milestone) (m : Milestone) (found : Bool)
    → occurs m.key (milestone_keys before) ≡ false
    → occurs m.key (milestone_keys after) ≡ false
    → is_pending m ≡ true
    → complete_loop m.key found (before ++ m ∷ after) ≡ ok (true, before ++ complete m ∷ after)
unfolding raising complete_loop
complete_loop-Cut [] after m found p q h =
    ground (arith, eq_iff m.key m.key, complete_loop-absent m.key true after)
complete_loop-Cut (x ∷ before) after m found p q h =
    ground (arith, complete_loop-Cut before after m found)

-- One run of the loop: the keys stay, `found` is exact, and each match takes one pending Milestone.
complete_loop_keeps :
    (key : String) (found : Bool) (ms : List Milestone) (found' : Bool) (ms' : List Milestone)
    → complete_loop key found ms ≡ ok (found', ms')
    → (milestone_keys ms' ≡ milestone_keys ms)
      × (found' ≡ (found || occurs key (milestone_keys ms)))
      × (count is_pending ms ≡ count is_pending ms' + count (λ m. m.key == key) ms)
unfolding raising complete_loop
complete_loop_keeps key found [] found' ms' h = (ground arith, ground arith, ground arith)
complete_loop_keeps key found (m ∷ ms) found' ms' h = elim (Bool-cases (m.key == key)) [
  | inl e ↦ elim (Result-cases (complete_loop key true ms)) [
    | inl ((f, rest), r) ↦
        (let ih = complete_loop_keeps key true ms f rest r in
          (ground (arith, ih), ground (arith, ih), ground (arith, ih)))
    | inr (x, r) ↦ absurd (ground arith)
  ]
  | inr e ↦ elim (Result-cases (complete_loop key found ms)) [
    | inl ((f, rest), r) ↦
        (let ih = complete_loop_keeps key found ms f rest r in
          (ground (arith, ih), ground (arith, ih), ground (arith, ih)))
    | inr (x, r) ↦ absurd (ground arith)
  ]
]

check_snapshot_identity : (s t : MilestoneSnapshot) → check_snapshot s ≡ ok t → t ≡ s
unfolding raising check_snapshot
check_snapshot_identity s t h = ground arith

count-unique_key :
    (key : String) (ms : List Milestone)
    → unique (milestone_keys ms) ≡ true
    → occurs key (milestone_keys ms) ≡ true
    → count (λ m. m.key == key) ms ≡ 1
count-unique_key key [] u h = cc
count-unique_key key (m ∷ ms) u h = elim (Bool-cases (m.key == key)) [
  | inl e ↦ ground (arith, count-absent_key key ms, eq_iff m.key key)
  | inr e ↦ ground (arith, count-unique_key key ms)
]
  where
    count-absent_key :
        (k : String) (l : List Milestone)
        → occurs k (milestone_keys l) ≡ false
        → count (λ x. x.key == k) l ≡ 0
    count-absent_key k [] p = refl
    count-absent_key k (x ∷ l) p = ground (arith, count-absent_key k l)

-- What a Snapshot that passes its checks is known to hold.
record Checked (s : MilestoneSnapshot) : Type 0 where
  triage : is_blank s.triage_id ≡ false
  plan : is_blank s.plan_commit_sha ≡ false
  keys : unique (milestone_keys s.milestones) ≡ true

check_snapshot-Checked : (s t : MilestoneSnapshot) → check_snapshot s ≡ ok t → Checked s
unfolding raising check_snapshot require_text require_unique
check_snapshot-Checked s t h = ground arith

-- The keys that the cut puts on the two sides differ from the key that it stands on.
Cut-keys :
    (ms : List Milestone) (m : Milestone) (cut : Cut ms m)
    → unique (milestone_keys ms) ≡ true
    → (occurs m.key (milestone_keys cut.before) ≡ false)
      × (occurs m.key (milestone_keys cut.after) ≡ false)
Cut-keys ms m cut u =
    unique-split (milestone_keys cut.before) (milestone_keys cut.after) m.key
      (rw (← milestone_keys-append cut.before (m ∷ cut.after), ← cut.joined) u)

complete-keys :
    (before after : List Milestone) (m : Milestone)
    → milestone_keys (before ++ complete m ∷ after) ≡ milestone_keys (before ++ m ∷ after)
complete-keys [] after m = refl
complete-keys (x ∷ before) after m =
    ap (λ (t : List String). x.key ∷ t) (complete-keys before after m)

append-not_empty :
    (before after : List Milestone) (m : Milestone) → is_empty (before ++ m ∷ after) ≡ false
append-not_empty [] after m = refl
append-not_empty (x ∷ before) after m = refl

-- Completing the selected Milestone of a checked Snapshot always succeeds, under a new identity and a
-- reason that are not blank. It marks exactly that Milestone: everything before it was completed
-- already, everything after it stays as it was.
pub complete-first_pending :
    (s : MilestoneSnapshot) (m : Milestone) (snapshot_id reason : String)
    (message_id : Option String) (created_at : ℕ)
    → check_snapshot s ≡ ok s
    → is_blank snapshot_id ≡ false
    → is_blank reason ≡ false
    → first_pending s ≡ some m
    → (cut : Cut s.milestones m) × (with_completed_milestone s m.key snapshot_id reason message_id
          created_at
        ≡ ok (record {
          snapshot_id = snapshot_id;
          triage_id = s.triage_id;
          previous_snapshot_id = some s.snapshot_id;
          plan_commit_sha = s.plan_commit_sha;
          milestones = cut.before ++ complete m ∷ cut.after;
          reason = reason;
          message_id = message_id;
          created_at = created_at;
        }))
unfolding raising with_completed_milestone first_pending check_snapshot require_text require_unique
complete-first_pending s m snapshot_id reason message_id created_at valid hi hr hf =
    let cut : Cut s.milestones m = find-Cut s.milestones m hf in
    let c : Checked s = check_snapshot-Checked s s valid in
    let (p, q) = Cut-keys s.milestones m cut c.keys in
    (
      cut,
      ground (
        arith,
        c,
        cut.joined,
        complete_loop-Cut cut.before cut.after m false p q cut.is_next,
        complete-keys cut.before cut.after m,
        append-not_empty cut.before cut.after (complete m),
      ),
    )

-- Whatever Milestone of a checked Snapshot is completed, the successor has the same Milestone keys in
-- the same order, one pending Milestone fewer, the same Feature and Plan, and a link back.
pub with_completed_milestone_keeps :
    (s t : MilestoneSnapshot) (key snapshot_id reason : String) (message_id : Option String)
    (created_at : ℕ)
    → check_snapshot s ≡ ok s
    → with_completed_milestone s key snapshot_id reason message_id created_at ≡ ok t
    → (milestone_keys t.milestones ≡ milestone_keys s.milestones)
      × (count is_pending s.milestones ≡ count is_pending t.milestones + 1)
      × (t.triage_id ≡ s.triage_id)
      × (t.plan_commit_sha ≡ s.plan_commit_sha)
      × (t.previous_snapshot_id ≡ some s.snapshot_id)
unfolding raising with_completed_milestone
with_completed_milestone_keeps s t key snapshot_id reason message_id created_at valid h =
    elim (Result-cases (complete_loop key false s.milestones)) [
      | inl ((f, ms), r) ↦ elim (Bool-cases f) [
        | inl e ↦
            (let k = complete_loop_keeps key false s.milestones f ms r in
              let c : Checked s = check_snapshot-Checked s s valid in
              let n = count-unique_key key s.milestones c.keys (ground (arith, k, e)) in
              let same = check_snapshot_identity _ t (rw (r, e) at h) in
              (
                ground (arith, k, same),
                ground (arith, k, same, n),
                ground (arith, same),
                ground (arith, same),
                ground (arith, same),
              ))
        | inr e ↦ absurd (ground arith)
      ]
      | inr (x, r) ↦ absurd (ground arith)
    ]
