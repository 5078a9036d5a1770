-- ===== src/Owner/Context/Automatic.antt =====
-- The automatic run of the Owner (`drive_owner` of
-- src/agentplanex/services/project_runtime_context/context.py).

use agent_panel_x.Prelude.{
  le_trans, ℕ, ◌≤◌, count, ◌≡◌, refl, true, some, List, arith, find, find-holds, raising, ok,
  eq_iff,
}
use agent_panel_x.State.{post_init}
use agent_panel_x.Runtime.{runnable, publish}
use agent_panel_x.Owner.{OwnerActivation, model, is_running}
use agent_panel_x.Table.Updates.{count-narrow}
use agent_panel_x.Table.Finding.{find-only}
use agent_panel_x.Owner.Activations.{unfinished_of, running_with_id, has_id, claimed}
use agent_panel_x.Owner.Activations.Reachable.{Reachable, reachable_activations-Sound}
use agent_panel_x.Owner.Lifecycle.{work_state, claim_for_model}
use agent_panel_x.Owner.Lifecycle.Moves.{Operation, claim_for_model-parts}
use agent_panel_x.Owner.Lifecycle.Refinement.{Operates, operates-Move, claim_next-claims}
use agent_panel_x.Owner.Lifecycle.Claiming.{claim_for_model-runnable}
use agent_panel_x.Owner.Context.{
  OwnerStore, stage_activation, stage_event, entered_event, entered_with,
  finish_owner_in_transaction, mutation_fence_guard,
}
use agent_panel_x.Owner.Context.Drive.{
  OwnerRun, exit_of, claim_owner, drive_claimed, drive_owner, finish_owner,
}
use agent_panel_x.Owner.Context.Endings.{Ended, finish_owner-Ended}

-- What the Owner Agent must leave alone while it runs: the activation is still the running one of its
-- Feature, perhaps with an interrupt request or another summary, on a table that the repository
-- reaches, the state passes its checks, and the mutation fence of the run is accepted.
pub record StaysRunning (a : OwnerActivation) (s : OwnerStore) : Type 0 where
  pub old : OwnerActivation
  pub reached : Reachable s.activations
  pub found : find (running_with_id a.activation_id) s.activations ≡ some old
  pub home : old.triage_id ≡ s.world.state.triage_id
  pub valid : post_init s.world.state ≡ ok s.world.state
  pub allowed : mutation_fence_guard s ≡ ok tt

-- The claim of a runnable mailbox, in its transaction: the pending activation becomes a running one of
-- the model, which the Timeline and the conversation are told.
pub claim_owner-runnable :
    (now : ℕ) (s : OwnerStore)
    → Reachable s.activations
    → work_state s.world.state.triage_id s.activations ≡ runnable
    → mutation_fence_guard s ≡ ok tt
    → (old : OwnerActivation) × (rows' : List OwnerActivation) × (find
          (unfinished_of s.world.state.triage_id)
          s.activations
        ≡ some old)
      × (claim_for_model s.world.state.triage_id now s.activations
          ≡ ok (some (claimed model now old, rows')))
      × (claim_owner now s
          ≡ ok (
            some (claimed model now old),
            stage_activation (claimed model now old) (
                stage_event
                  (entered_with (claimed model now old) model)
                  (record s { activations = rows' })),
          ))
unfolding raising claim_owner entered_event
claim_owner-runnable now s reached free allowed =
    let (old, rows', found, _, claims) =
      claim_for_model-runnable s.world.state.triage_id now s.activations reached free in
    (old, rows', found, claims, rw (allowed, claims) refl)

-- After the claim its activation is the running one.
claimed-StaysRunning :
    (now : ℕ) (s : OwnerStore) (a : OwnerActivation) (rows' : List OwnerActivation)
    → Reachable s.activations
    → post_init s.world.state ≡ ok s.world.state
    → mutation_fence_guard s ≡ ok tt
    → claim_for_model s.world.state.triage_id now s.activations ≡ ok (some (a, rows'))
    → a.driver_mode ≡ some model
    → StaysRunning a
        (stage_activation a (stage_event (entered_with a model) (record s { activations = rows' })))
unfolding stage_activation stage_event publish mutation_fence_guard
claimed-StaysRunning now s a rows' reached valid allowed claims driver =
    let t = s.world.state.triage_id in
    let (_, reached') =
      operates-Move t s.activations rows' Operation.claiming_model reached
        (Operates.claims_model now a rows' claims) in
    let (old, _, _, found, made) =
      claim_next-claims t now model s.activations rows' a reached reached'
        (claim_for_model-parts t now s.activations rows' a claims) in
    let home : unfinished_of t a ≡ true = find-holds (unfinished_of t) rows' a found in
    let one : count (running_with_id a.activation_id) rows' ≤ 1 =
      le_trans
        (count-narrow (has_id a.activation_id) (running_with_id a.activation_id) rows'
          (λ r h. ground arith))
        ((reachable_activations-Sound rows' reached').one_each a.activation_id) in
    let runs : is_running a.status ≡ true = rw made refl in
    record {
      old = a;
      reached = reached';
      found =
          find-only (running_with_id a.activation_id) (unfinished_of t) rows' a one found
            (ground (arith, runs, eq_iff a.activation_id a.activation_id));
      home = ground (arith, home, eq_iff a.triage_id t);
      valid = valid;
      allowed = allowed;
    }

drive_claimed-ends :
    (run : OwnerRun) (now : ℕ) (a : OwnerActivation) (s' s : OwnerStore) (b : OwnerActivation)
    (t : OwnerStore)
    → mutation_fence_guard (run a s').1 ≡ ok tt
    → finish_owner_in_transaction a (exit_of (run a s').0) now (run a s').1 ≡ ok (b, t)
    → drive_claimed run now (ok (some a, s')) s
      ≡ (ok (record { activation = some b; exit = some (exit_of (run a s').0) }), t)
unfolding raising drive_claimed finish_owner
drive_claimed-ends run now a s' s b t allowed e = rw (allowed, e) refl

-- A run of the Owner Agent from a runnable mailbox ends its activation, whatever the Agent returns or
-- raises, if the mutation fence of the run is accepted when it begins, and the Agent leaves that
-- activation the running one, the state valid and the fence accepted: the operation returns the ended activation with the exit, the mailbox is idle, and an exit that counts
-- as a failure, every exception among them, blocks a project that is not DONE.
pub drive_owner-Ended :
    (run : OwnerRun) (started_at finished_at : ℕ) (s : OwnerStore)
    → Reachable s.activations
    → work_state s.world.state.triage_id s.activations ≡ runnable
    → post_init s.world.state ≡ ok s.world.state
    → mutation_fence_guard s ≡ ok tt
    → ((a : OwnerActivation) (s' : OwnerStore) → StaysRunning a s' → StaysRunning a (run a s').1)
    → (old : OwnerActivation) × (s' : OwnerStore) × (b : OwnerActivation) × (t : OwnerStore) × (find
          (unfinished_of s.world.state.triage_id)
          s.activations
        ≡ some old)
      × (claim_owner started_at s ≡ ok (some (claimed model started_at old), s'))
      × (let answer = run (claimed model started_at old) s' in
          (drive_owner run started_at finished_at s
            ≡ (ok (record { activation = some b; exit = some (exit_of answer.0) }), t))
          × ((last : OwnerActivation) × Ended
                (claimed model started_at old)
                last
                (exit_of answer.0)
                finished_at
                answer.1
                b
                t))
unfolding drive_owner
drive_owner-Ended run started_at finished_at s reached free valid allowed keeps =
    let (old, rows', found, taken, claims) =
      claim_owner-runnable started_at s reached free allowed in
    let a = claimed model started_at old in
    let s' =
      stage_activation a (stage_event (entered_with a model) (record s { activations = rows' })) in
    let kept =
      keeps a s' (claimed-StaysRunning started_at s a rows' reached valid allowed taken refl) in
    let (b, t, ends, ended) =
      finish_owner-Ended a kept.old (exit_of (run a s').0) finished_at (run a s').1 kept.reached
        kept.found kept.home kept.valid in
    (
      old,
      s',
      b,
      t,
      found,
      claims,
      (
        rw claims (drive_claimed-ends run finished_at a s' s b t kept.allowed ends),
        (kept.old, ended),
      ),
    )
