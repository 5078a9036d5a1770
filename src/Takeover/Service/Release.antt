-- ===== src/Takeover/Service/Release.antt =====
-- What the release of a drive starts (`after_drive_released`).
use agent_panel_x.Prelude.{
  raising, ℕ, String, ◌≡◌, refl, sym, ap, ◌∙◌, inl, inr, Bool, true, false, Option, none, some,
  arith, Result, ok, err, Result-cases,
}
use agent_panel_x.Event.{ExecutionEvent}
use agent_panel_x.Runtime.{publish}
use agent_panel_x.Takeover.{Takeovers}
use agent_panel_x.Takeover.Operations.{Fresh, Started, begin}
use agent_panel_x.Takeover.Reachable.{Reachable}
use agent_panel_x.Takeover.Fence.{fence_of, Sets}
use agent_panel_x.Takeover.Fence.Moves.{begin-Sets}
use agent_panel_x.Takeover.Service.{
  TakeoverStore, insert_event, new_blocked_event, fail, Job, started_job, start_takeover,
  submit_job, no_job, settle_takeover, after_drive_released,
}

-- A takeover that has begun in the first transaction.
abbrev Began :
    Fresh → String → Option (ℕ × ExecutionEvent) → TakeoverStore → Job → TakeoverStore → Type 0
Began fresh triage_id trigger s job s' =
    (trigger ≡ some job.trigger)
    × (started : Started) × (begin fresh triage_id job.trigger.0 s.takeovers
        ≡ ok (some started, s'.takeovers))

start_takeover-Began :
    (fresh : Fresh) (triage_id : String) (trigger : Option (ℕ × ExecutionEvent))
    (s s' : TakeoverStore) (job : Job)
    → start_takeover fresh triage_id trigger s ≡ ok (some job, s')
    → Began fresh triage_id trigger s job s'
unfolding raising start_takeover started_job insert_event publish
start_takeover-Began fresh t none s s' job e = absurd (ground arith)
start_takeover-Began fresh t (some trigger) s s' job e =
    elim (Result-cases (begin fresh t trigger.0 s.takeovers)) [
      | inl ((none, takeovers), b) ↦ absurd (ground (arith, b))
      | inl ((some started, takeovers), b) ↦
          (let same_trigger : trigger ≡ job.trigger = ground (arith, b) in
            let taken : takeovers ≡ s'.takeovers = ground (arith, b) in
            (
              ap some same_trigger,
              started,
              ap (λ (q : ℕ × ExecutionEvent). begin fresh t q.0 s.takeovers) (sym same_trigger)
                  ∙ b
                  ∙ ap (λ (x : Takeovers). ok (some started, x)) taken,
            ))
      | inr (x, b) ↦ absurd (ground (arith, b))
    ]

no_job-none :
    (r : Result (Unit {0} × TakeoverStore)) (s s' : TakeoverStore) (job : Job)
    → settle_takeover (no_job r) s ≡ (ok (some job), s')
    → ⊥
no_job-none (ok (u, s1)) s s' job e = ground arith
no_job-none (err x) s s' job e = ground arith

submit_job-Began :
    (accepting : Bool) (t : String) (failed_at : ℕ) (r : Result (Option Job × TakeoverStore))
    (s s' : TakeoverStore) (job : Job)
    → submit_job accepting t failed_at r s ≡ (ok (some job), s')
    → (accepting ≡ true) × (r ≡ ok (some job, s'))
unfolding submit_job
submit_job-Began accepting t failed_at (err x) s s' job e = absurd (ground arith)
submit_job-Began accepting t failed_at (ok (none, s1)) s s' job e = absurd (ground arith)
submit_job-Began true t failed_at (ok (some j, s1)) s s' job e = (refl, ground arith)
submit_job-Began false t failed_at (ok (some j, s1)) s s' job e =
    absurd (no_job-none (fail t j.run _ failed_at s1) s1 s' job e)

-- A release that hands a takeover to a worker has found the service accepting, before and after its
-- transaction, and a new event that blocked the project; the Feature had no fence, and now has the fresh
-- token, while that of every other Feature is kept.
pub released-Sets :
    (accepting accepting_worker : Bool) (fresh : Fresh) (failed_at : ℕ) (triage_id : String)
    (after_event_id : ℕ) (s s' : TakeoverStore) (job : Job)
    → Reachable s.takeovers
    → after_drive_released accepting accepting_worker fresh failed_at triage_id after_event_id s
      ≡ (ok (some job), s')
    → (accepting ≡ true)
      × (accepting_worker ≡ true)
      × (new_blocked_event triage_id after_event_id s.world ≡ some job.trigger)
      × (fence_of triage_id s.takeovers ≡ none)
      × Sets triage_id (some fresh.token) s.takeovers s'.takeovers
unfolding after_drive_released
released-Sets false worker fresh failed_at t mark s s' job reached e = absurd (ground arith)
released-Sets true worker fresh failed_at t mark s s' job reached e =
    let (is_worker, begun) = submit_job-Began worker t failed_at _ s s' job e in
    let (trigger_is, started, b) = start_takeover-Began fresh t _ s s' job begun in
    let (had_none, sets) =
      begin-Sets fresh t job.trigger.0 started s.takeovers s'.takeovers reached b in
    (refl, is_worker, trigger_is, had_none, sets)
