-- ===== src/Takeover/Fence.antt =====
-- The fence of a takeover: which token the mutations of a Feature need
-- (`require_active_fence` of src/agentplanex/infrastructure/sqlite/repositories/auto_takeover.py).
pub mod Rows
pub mod Moves
pub mod Mutations
use agent_panel_x.Prelude.{
  raising, String, ◌≡◌, refl, ◌↔◌, inl, inr, true, Option, none, some, ◌==◌, arith, eq_iff,
  Option-cases, find-holds, if◌then◌else◌, is_some, ok, opt_eq_iff,
}
use agent_panel_x.Table.Updates.{find-none-count}
use agent_panel_x.Table.Finding.{find-le-count}
use agent_panel_x.Table.Checked.{find-All}
use agent_panel_x.Takeover.{
  TakeoverRun, TakeoverAttempt, Takeovers, active_of, running_with_id, active_attempt_of,
  get_active, get_active_attempt, check_attempt, check_active, require_active_fence,
}
use agent_panel_x.Takeover.Invariant.{IsSound, Fenced}
use agent_panel_x.Takeover.Reachable.{Reachable, reachable_takeovers-Sound}

-- The fence as a map: the token that each Feature's mutations need, if any.
abbrev pub token_of : Option TakeoverAttempt → Option String
token_of none = none
token_of (some a) = a.fence_token

abbrev pub token_of_run : Takeovers → Option TakeoverRun → Option String
token_of_run s none = none
token_of_run s (some r) = token_of (get_active_attempt r.run_id s)

abbrev pub fence_of : String → Takeovers → Option String
fence_of triage_id s = token_of_run s (get_active triage_id s)

-- The fence of one Feature is set, and that of the others kept.
abbrev pub Sets : String → Option String → Takeovers → Takeovers → Type 0
Sets triage_id token s s' =
    (k : String) → fence_of k s' ≡ (if k == triage_id then token else fence_of k s)

-- The active run of a Feature has an active attempt that holds a token.
pub active_run-attempt :
    (s : Takeovers) (triage_id : String) (r : TakeoverRun)
    → IsSound s
    → get_active triage_id s ≡ some r
    → (a : TakeoverAttempt) × (get_active_attempt r.run_id s ≡ some a)
      × (is_some a.fence_token ≡ true)
active_run-attempt s t r sound e = elim (Option-cases (get_active_attempt r.run_id s)) [
  | inl nothing ↦ absurd (
      ground (
        arith,
        sound.attempt_of_run r.run_id,
        find-none-count (active_attempt_of r.run_id) s.attempts nothing,
        find-holds (active_of t) s.runs r e,
        eq_iff r.run_id r.run_id,
        find-le-count (running_with_id r.run_id) (active_of t) s.runs r e,
      ))
  | inr (a, found) ↦
      (let here = find-All Fenced _ s.attempts a sound.attempts_sound.fenced found in
        (
          a,
          found,
          ground (arith, here.1, find-holds (active_attempt_of r.run_id) s.attempts a found),
        ))
]

check_attempt-accepts :
    (a : TakeoverAttempt) (token : Option String)
    → is_some a.fence_token ≡ true
    → (check_attempt (some a) token ≡ ok tt) ↔ (token ≡ a.fence_token)
unfolding raising check_attempt
check_attempt-accepts a none held = (λ h. ground arith, λ h. ground (arith, held))
check_attempt-accepts a (some t) held = (
  λ h. ground (arith, opt_eq_iff a.fence_token (some t)),
  λ h. ground (arith, opt_eq_iff a.fence_token (some t)),
)

check_active-none :
    (token : Option String) (s : Takeovers) → (check_active none token s ≡ ok tt) ↔ (token ≡ none)
unfolding raising check_active
check_active-none none s = (λ h. refl, λ h. refl)
check_active-none (some t) s = (λ h. ground arith, λ h. ground arith)

check_active-some :
    (r : TakeoverRun) (a : TakeoverAttempt) (token : Option String) (s : Takeovers)
    → get_active_attempt r.run_id s ≡ some a
    → is_some a.fence_token ≡ true
    → (check_active (some r) token s ≡ ok tt) ↔ (token ≡ a.fence_token)
unfolding check_active
check_active-some r a token s its held = rw its (check_attempt-accepts a token held)

-- In tables that the repository reaches, a mutation of a Feature passes the check of the fence exactly
-- with the token that the fence holds: none where no takeover runs, else that of the active attempt.
pub require_active_fence-fence_of :
    (s : Takeovers) (triage_id : String) (token : Option String)
    → Reachable s
    → (require_active_fence triage_id token s ≡ ok tt) ↔ (token ≡ fence_of triage_id s)
unfolding require_active_fence
require_active_fence-fence_of s t token reached = elim (Option-cases (get_active t s)) [
  | inl nothing ↦ rw nothing (check_active-none token s)
  | inr (r, found) ↦
      (let sound = reachable_takeovers-Sound s reached in
        let (a, its, held) = active_run-attempt s t r sound found in
        rw (found, its) (check_active-some r a token s its held))
]
