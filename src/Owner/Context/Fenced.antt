-- ===== src/Owner/Context/Fenced.antt =====
-- The Owner's operations against the fence of an automatic takeover (the guard of `transaction()` in
-- src/agentplanex/services/project_runtime_context/context.py).
use agent_panel_x.Prelude.{
  ℕ, String, ◌≡◌, ◌≢◌, refl, sym, inl, inr, false, some, All, arith, eq_iff, raising, is_blank,
  Error, Result, ok, err, Result-cases,
}
use agent_panel_x.Takeover.{TakeoverRun}
use agent_panel_x.Takeover.Reachable.{Reachable}
use agent_panel_x.Takeover.Fence.{fence_of}
use agent_panel_x.Takeover.Fence.Mutations.{require_mutation_fence-fence_of}
use agent_panel_x.Owner.{OwnerActivation}
use agent_panel_x.Owner.Context.{OwnerStore, mutation_fence_guard}
use agent_panel_x.Owner.Context.Drive.{
  OwnerRun, ToolRun, claim_owner, drive_claimed, drive_owner, finish_owner, claim_step,
  step_claimed, drive_owner_tool, reply_owner, fail_owner, execute_tool,
  reconcile_interrupted_owner, request_owner_interrupt,
}

-- How the Owner's operations end on a store whose caller is fenced out: with one error, and the store as it
-- is. `late` is the end of a run of the Owner Agent that began before and has left this store.
pub record Refused (A : Type 0) (e : Error) (s : OwnerStore) : Type 0 where
  pub automatic : (run : OwnerRun) (a b : ℕ) → drive_owner run a b s ≡ (err e, s)
  pub late :
      (run : OwnerRun) (a b : ℕ) (before claimed : OwnerStore) (activation : OwnerActivation)
      → claim_owner a before ≡ ok (some activation, claimed)
      → (run activation claimed).1 ≡ s
      → drive_owner run a b before ≡ (err e, s)
  pub step : (run : ToolRun) (a b : ℕ) → drive_owner_tool run a b s ≡ (err e, s)
  pub reply :
      (content message_id : String) (a b c : ℕ)
      → reply_owner content message_id a b c s ≡ (err e, s)
  pub fail : (reason : String) (a b : ℕ) → is_blank reason ≡ false → fail_owner reason a b s ≡ err e
  pub naked : (executor : OwnerStore → Result A × OwnerStore) → execute_tool executor s ≡ (err e, s)
  pub reconcile : (now : ℕ) (failure : String) → reconcile_interrupted_owner now failure s ≡ err e
  pub interrupt : request_owner_interrupt s.world.state.triage_id s ≡ err e

claim_owner-refused :
    (now : ℕ) (s : OwnerStore) (e : Error)
    → mutation_fence_guard s ≡ err e
    → claim_owner now s ≡ err e
unfolding raising claim_owner
claim_owner-refused now s e h = rw h refl

claim_step-refused :
    (now : ℕ) (s : OwnerStore) (e : Error)
    → mutation_fence_guard s ≡ err e
    → claim_step now s ≡ err e
unfolding raising claim_step
claim_step-refused now s e h = rw h refl

automatic-refused :
    (run : OwnerRun) (a b : ℕ) (s : OwnerStore) (e : Error)
    → mutation_fence_guard s ≡ err e
    → drive_owner run a b s ≡ (err e, s)
unfolding drive_owner drive_claimed
automatic-refused run a b s e h = rw (claim_owner-refused a s e h) refl

late-refused :
    (run : OwnerRun) (a b : ℕ) (before claimed : OwnerStore) (activation : OwnerActivation)
    (e : Error)
    → claim_owner a before ≡ ok (some activation, claimed)
    → mutation_fence_guard (run activation claimed).1 ≡ err e
    → drive_owner run a b before ≡ (err e, (run activation claimed).1)
unfolding raising drive_owner drive_claimed finish_owner
late-refused run a b before claimed activation e claims h = rw (claims, h) refl

step-refused :
    (run : ToolRun) (a b : ℕ) (s : OwnerStore) (e : Error)
    → mutation_fence_guard s ≡ err e
    → drive_owner_tool run a b s ≡ (err e, s)
unfolding drive_owner_tool step_claimed
step-refused run a b s e h = rw (claim_step-refused a s e h) refl

reply-refused :
    (content message_id : String) (a b c : ℕ) (s : OwnerStore) (e : Error)
    → mutation_fence_guard s ≡ err e
    → reply_owner content message_id a b c s ≡ (err e, s)
unfolding reply_owner
reply-refused content message_id a b c s e h = rw (claim_step-refused a s e h) refl

fail-refused :
    (reason : String) (a b : ℕ) (s : OwnerStore) (e : Error)
    → mutation_fence_guard s ≡ err e
    → is_blank reason ≡ false
    → fail_owner reason a b s ≡ err e
unfolding raising fail_owner
fail-refused reason a b s e h given = rw (given, h) refl

naked-refused :
    {A : Type 0} (executor : OwnerStore → Result A × OwnerStore) (s : OwnerStore) (e : Error)
    → mutation_fence_guard s ≡ err e
    → execute_tool executor s ≡ (err e, s)
unfolding raising execute_tool
naked-refused executor s e h = rw h refl

reconcile-refused :
    (now : ℕ) (failure : String) (s : OwnerStore) (e : Error)
    → mutation_fence_guard s ≡ err e
    → reconcile_interrupted_owner now failure s ≡ err e
unfolding raising reconcile_interrupted_owner
reconcile-refused now failure s e h = rw h refl

interrupt-refused :
    (s : OwnerStore) (e : Error)
    → mutation_fence_guard s ≡ err e
    → request_owner_interrupt s.world.state.triage_id s ≡ err e
unfolding raising request_owner_interrupt
interrupt-refused s e h = ground (arith, h, eq_iff s.world.state.triage_id s.world.state.triage_id)

guarded-Refused :
    (A : Type 0) (s : OwnerStore) (e : Error) → mutation_fence_guard s ≡ err e → Refused A e s
guarded-Refused A s e h = record {
  automatic = λ run a b. automatic-refused run a b s e h;
  late = λ run a b before claimed activation claims left.
      rw (sym left) (late-refused run a b before claimed activation e claims (rw left h));
  step = λ run a b. step-refused run a b s e h;
  reply = λ content message_id a b c. reply-refused content message_id a b c s e h;
  fail = λ reason a b given. fail-refused reason a b s e h given;
  naked = λ executor. naked-refused {A = A} executor s e h;
  reconcile = λ now failure. reconcile-refused now failure s e h;
  interrupt = interrupt-refused s e h;
}

guard-fence_of :
    (s : OwnerStore) (triage_id : String)
    → Reachable s.takeovers
    → All (λ (r : TakeoverRun). r.triage_id ≡ triage_id) s.takeovers.runs
    → mutation_fence_guard s ≡ ok tt
    → s.mutation_fence ≡ fence_of triage_id s.takeovers
unfolding mutation_fence_guard
guard-fence_of s t reached home h =
    (require_mutation_fence-fence_of s.takeovers t s.mutation_fence reached home).0 h

-- A caller whose token is not the one that the fence of the Feature holds, on tables of takeovers that the
-- repository reaches and whose runs all belong to that Feature, is fenced out of the Owner's work: every operation of the Runtime Context on it
-- (an automatic run, a Tool step, a reply, an end by hand if its reason is not blank, a naked Tool action, the recovery
-- and an interrupt request) raises the same error and leaves the store as it is. A run of the Owner Agent
-- that began before the fence moved raises it too, and leaves the store as the Agent left it.
pub fenced_out-Refused :
    (A : Type 0) (s : OwnerStore) (triage_id : String)
    → Reachable s.takeovers
    → All (λ (r : TakeoverRun). r.triage_id ≡ triage_id) s.takeovers.runs
    → s.mutation_fence ≢ fence_of triage_id s.takeovers
    → (e : Error) × Refused A e s
fenced_out-Refused A s t reached home outside = elim (Result-cases (mutation_fence_guard s)) [
  | inl (u, h) ↦ absurd (outside (guard-fence_of s t reached home h))
  | inr (e, h) ↦ (e, guarded-Refused A s e h)
]
