-- ===== src/Planning/Checkpoint.antt =====
-- Where the checkpoint commit of a Plan comes from (`_checkpoint_plan` of
-- src/agentplanex/services/planning/_service.py).

use agent_panel_x.Prelude.{
  not, Result, ℕ, String, ◌≡◌, refl, ap, ◌∙◌, inl, inr, Bool, true, false, Option, none, some, List,
  arith, ◌==◌, eq_iff, if◌then◌else◌, any, all, Ensures, Ensures-bind, Ensures-guard,
  Ensures-or_raise, Ensures-ok, raising, ok, Result-cases,
}
use agent_panel_x.State.{ProjectRuntimeState}
use mathlib.Core.Path.{subst}
use agent_panel_x.Planning.{PlanRepository}
use agent_panel_x.Planning.Approval.{
  is_plan_document, commit_specs, is_reusable_checkpoint, reuse_checkpoint, checkpoint_from,
  checkpoint_plan,
}

pub same_digest :
    (answer : Result String) (found digest : String)
    → answer ≡ ok found
    → not (found == digest) ≡ false
    → answer ≡ ok digest
same_digest answer found digest h e = ground (arith, eq_iff found digest)

-- The commit that a rolling delivery takes for a Plan: the target as it is, a commit of the documents on
-- the target, or an earlier checkpoint of the same documents right on the target.
pub data Checkpoint (repository : PlanRepository) (baseline digest commit : String) : Type 0 where
  kept :
      repository.head_sha ≡ ok baseline
      → commit ≡ baseline
      → Checkpoint repository baseline digest commit
  made :
      repository.head_sha ≡ ok baseline
      → repository.commit_paths ≡ ok commit
      → Checkpoint repository baseline digest commit
  reused :
      (paths : List String)
      → repository.head_sha ≡ ok commit
      → repository.commit_parent commit ≡ ok baseline
      → repository.changed_paths_between baseline commit ≡ ok paths
      → all is_plan_document paths ≡ true
      → repository.commit_digest commit ≡ ok digest
      → Checkpoint repository baseline digest commit

is_reusable_checkpoint-paths :
    (repository : PlanRepository) (baseline head : String)
    → is_reusable_checkpoint repository baseline head ≡ ok true
    → (repository.commit_parent head ≡ ok baseline)
      × ((paths : List String) × (repository.changed_paths_between baseline head ≡ ok paths)
          × (all is_plan_document paths ≡ true))
unfolding raising is_reusable_checkpoint
is_reusable_checkpoint-paths repository baseline head h =
    elim (Result-cases (repository.commit_parent head)) [
      | inl (parent, p) ↦ elim (Result-cases (repository.changed_paths_between baseline head)) [
        | inl (paths, c) ↦
            (ground (arith, p, eq_iff parent baseline), (paths, c, ground (arith, p, c)))
        | inr (x, c) ↦ absurd (ground (arith, p, c))
      ]
      | inr (x, p) ↦ absurd (ground (arith, p))
    ]

reuse_checkpoint-Checkpoint :
    (repository : PlanRepository) (changed : Bool) (baseline head digest : String)
    → repository.head_sha ≡ ok head
    → Ensures
        (reuse_checkpoint repository changed baseline head digest)
        (Checkpoint repository baseline digest)
unfolding reuse_checkpoint
reuse_checkpoint-Checkpoint repository changed baseline head digest at_head =
    Ensures-guard _ _ _ λ _. Ensures-bind _ _ λ reusable found. Ensures-guard _ _ _ λ is_one.
      Ensures-bind _ _ λ committed read. Ensures-guard _ _ _ λ same.
        let yes_reusable : reusable ≡ true = ground (arith, is_one) in
        let (parent, (paths, between, only)) =
          is_reusable_checkpoint-paths repository baseline head (found ∙ ap ok yes_reusable) in
        Ensures-ok _ _ (
          Checkpoint.reused paths at_head parent between only
            (same_digest _ committed digest read same))

commit_specs-Checkpoint :
    (repository : PlanRepository) (changed : Bool) (baseline head digest commit : String)
    → repository.head_sha ≡ ok head
    → head ≡ baseline
    → commit_specs repository changed head ≡ ok commit
    → Checkpoint repository baseline digest commit
unfolding commit_specs
commit_specs-Checkpoint repository false baseline head digest commit at_head same h =
    Checkpoint.kept (at_head ∙ ap ok same) (ground (arith, h, same))
commit_specs-Checkpoint repository true baseline head digest commit at_head same h =
    Checkpoint.made (at_head ∙ ap ok same) h

from_head :
    (repository : PlanRepository) (changed : Bool) (baseline head digest : String) (at : Bool)
    → repository.head_sha ≡ ok head
    → (head == baseline) ≡ at
    → Ensures
        (if at
          then commit_specs repository changed head
          else reuse_checkpoint repository changed baseline head digest)
        (Checkpoint repository baseline digest)
from_head repository changed baseline head digest true at_head same = record {
  at = λ commit h.
      commit_specs-Checkpoint repository changed baseline head digest commit at_head
        (ground (arith, eq_iff head baseline)) h;
}
from_head repository changed baseline head digest false at_head other =
    reuse_checkpoint-Checkpoint repository changed baseline head digest at_head

checkpoint_from-Checkpoint :
    (repository : PlanRepository) (branch : Option String) (changed : Bool)
    (baseline head digest : String)
    → repository.head_sha ≡ ok head
    → Ensures
        (checkpoint_from repository (some baseline) branch changed head digest)
        (Checkpoint repository baseline digest)
unfolding checkpoint_from
checkpoint_from-Checkpoint repository branch changed baseline head digest at_head =
    Ensures-or_raise _ _ _ λ name _. Ensures-bind _ _ λ current _.
      Ensures-guard _ _ _ λ _. from_head repository changed baseline head digest _ at_head refl

commit_for_target :
    (repository : PlanRepository) (target : Option String) (branch : Option String) (changed : Bool)
    (baseline head digest : String)
    → target ≡ some baseline
    → repository.head_sha ≡ ok head
    → Ensures
        (checkpoint_from repository target branch changed head digest)
        (Checkpoint repository baseline digest)
commit_for_target repository none branch changed baseline head digest same at_head = cc
commit_for_target repository (some target) branch changed baseline head digest same at_head =
    let at : target ≡ baseline = ground (arith, same) in
    subst
      (λ (b : String).
        Ensures (checkpoint_from repository (some target) branch changed head digest)
          (Checkpoint repository b digest))
      at (checkpoint_from-Checkpoint repository branch changed target head digest at_head)

-- The checkpoint of a Plan in a rolling delivery never leaves the target by anything but the Plan
-- documents: it is the target itself, a commit of the documents made on the target, or an earlier commit
-- right on the target that changed documents only and holds the reviewed ones.
pub checkpoint_plan-Checkpoint :
    (repository : PlanRepository) (state : ProjectRuntimeState) (baseline digest commit : String)
    (started_at : ℕ)
    → state.rolling_started_at ≡ some started_at
    → state.git_main_version ≡ some baseline
    → checkpoint_plan repository state digest ≡ ok commit
    → Checkpoint repository baseline digest commit
unfolding checkpoint_plan
checkpoint_plan-Checkpoint repository state baseline digest commit started_at rolling target h =
    (Ensures-bind _ _ λ changed _. Ensures-bind _ _ λ head at_head.
        commit_for_target repository _ state.git_branch (any is_plan_document changed) baseline head
          digest (ground (arith, rolling, target)) at_head).at
      commit h
