-- ===== src/Tests/Takeover.antt =====
-- Automatic takeovers at concrete inputs.
use agent_panel_x.Prelude.{
  [], String, ◌≡◌, ◌↔◌, refl, true, false, Option, map, none, some, ◌∷◌, ok, err, ◌≤◌, count,
  Result, find, is_some, value_error,
}
use agent_panel_x.State.{blocked, ProjectRuntimeState}
use agent_panel_x.Event.{
  RuntimeContextChangeReason, ExecutionEvent, ExecutionEventType, FieldValue, PayloadValue,
}
use agent_panel_x.Runtime.{World, updated_event}
use agent_panel_x.Runtime.Transition.{moved}
use agent_panel_x.Runtime.Changes.{state_changes}
use agent_panel_x.Takeover.Bounds.{is_attempt_of, attempts-at_most_two}
use agent_panel_x.Takeover.Service.Release.{released-Sets}
use agent_panel_x.Takeover.Service.Triggers.{transition-triggers}
use agent_panel_x.Takeover.{
  TakeoverRun, TakeoverAttempt, Takeovers, takeover_yes, invalid, failed, AttemptStatus,
  running_with_id, get_active_attempt, require_mutation_fence,
}
use agent_panel_x.Takeover.Operations.{Fresh, new_run, new_attempt, ended_attempt, completed_run}
use agent_panel_x.Takeover.Invariant.{IsSound}
use agent_panel_x.Takeover.Reachable.{Reachable, reachable_takeovers-Sound}
use agent_panel_x.Takeover.Fence.{fence_of, Sets}
use agent_panel_x.Takeover.Fence.Mutations.{require_mutation_fence-fence_of}
use agent_panel_x.Takeover.Fence.Moves.{correct-Sets, complete-Sets}
use agent_panel_x.Takeover.Service.{
  Job, TakeoverStore, after_drive_released, event_watermark, new_blocked_event,
}
use agent_panel_x.Takeover.Service.Execute.{AutoTakeoverPayload, Outside, Exit, execute}
use agent_panel_x.Takeover.Service.Answer.{Decision, AutoTakeoverOutput}
use agent_panel_x.Takeover.Service.Settled.{Settled, execute-Settled}
use agent_panel_x.Tests.Computing.Takeover.{computing_takeover}
use agent_panel_x.Tests.Data.{at_stage, queued_row, two_milestones, world_of, between_runs}

-- The event of a project that has been blocked.
abbrev blocking_event : ExecutionEvent
blocking_event = record {
  triage_id = "t1";
  event_type = ExecutionEventType.runtime_context_updated;
  payload =
      (
        "changes",
        PayloadValue.changes (
            record {
              name = "status";
              before = FieldValue.text "IN_PROGRESS";
              after = FieldValue.text "BLOCKED";
            }
            ∷ []),
      )
      ∷ [];
}

abbrev no_takeovers : Takeovers
no_takeovers = record { runs = []; attempts = [] }

abbrev first_fresh : Fresh
first_fresh = record { run_id = "r1"; attempt_id = "a1"; token = "k1"; now = 5 }

abbrev second_fresh : Fresh
second_fresh = record { run_id = "r2"; attempt_id = "a2"; token = "k2"; now = 7 }

abbrev first_run : TakeoverRun
first_run = new_run "r1" "t1" 1 5

abbrev first_attempt : TakeoverAttempt
first_attempt = new_attempt "a1" "k1" "r1" 1 5

abbrev second_attempt : TakeoverAttempt
second_attempt = new_attempt "a2" "k2" "r1" 2 7

abbrev pub started : Takeovers
started = record { runs = first_run ∷ []; attempts = first_attempt ∷ [] }

abbrev too_early : String
too_early = "YES requires IN_PROGRESS, observed BLOCKED"

abbrev corrected : Takeovers
corrected = record {
  runs = first_run ∷ [];
  attempts = ended_attempt invalid (some too_early) 7 first_attempt ∷ second_attempt ∷ [];
}

pub reached_started : Reachable started
unfolding computing_takeover
reached_started =
    Reachable.beginning first_fresh "t1" 1
      (some (record { run = first_run; attempt = first_attempt })) no_takeovers started
      Reachable.start refl

reached_corrected : Reachable corrected
unfolding computing_takeover
reached_corrected =
    Reachable.correcting second_fresh "r1" too_early second_attempt started corrected
      reached_started refl

reachable_takeovers-Sound_example : IsSound corrected
reachable_takeovers-Sound_example = reachable_takeovers-Sound corrected reached_corrected

require_mutation_fence-fence_of_example :
    (require_mutation_fence (some "k1") corrected ≡ ok tt) ↔ (some "k1" ≡ fence_of "t1" corrected)
require_mutation_fence-fence_of_example =
    require_mutation_fence-fence_of corrected "t1" (some "k1") reached_corrected (refl, tt)

abbrev completed : Takeovers
completed = record {
  runs = completed_run takeover_yes none none 9 first_run ∷ [];
  attempts =
      ended_attempt invalid (some too_early) 7 first_attempt
      ∷ ended_attempt AttemptStatus.completed none 9 second_attempt
      ∷ [];
}

correct-Sets_example :
    (r : TakeoverRun) × (old : TakeoverAttempt) × (find (running_with_id "r1") started.runs
      ≡ some r)
    × (get_active_attempt "r1" started ≡ some old)
    × (fence_of r.triage_id started ≡ old.fence_token)
    × Sets r.triage_id (some "k2") started corrected
unfolding computing_takeover
correct-Sets_example =
    correct-Sets second_fresh "r1" too_early second_attempt started corrected reached_started refl

complete-Sets_example :
    ((completed_run takeover_yes none none 9 first_run).run_id ≡ "r1")
    × (is_some (fence_of "t1" corrected) ≡ true)
    × Sets "t1" none corrected completed
unfolding computing_takeover
complete-Sets_example =
    complete-Sets 9 "r1" takeover_yes none none (completed_run takeover_yes none none 9 first_run)
      corrected completed reached_corrected refl

-- An Agent that first answers too early, and then queues a Stage.
abbrev blocked_world : World
blocked_world = world_of (record between_runs { status = blocked }) two_milestones []

abbrev queued_world : World
queued_world =
    world_of (at_stage (some "design")) two_milestones (queued_row "q" "design" "c0" 8 ∷ [])

abbrev says_yes : AutoTakeoverOutput
says_yes = record { decision = Decision.yes; attribution = none }

abbrev world_after : Option String → World → World
world_after none w = w
world_after (some text) w = queued_world

abbrev answers : AutoTakeoverPayload → TakeoverStore → Result AutoTakeoverOutput × TakeoverStore
answers given s = (ok says_yes, record s { world = world_after given.correction s.world })

abbrev gives_up : AutoTakeoverPayload → TakeoverStore → Result AutoTakeoverOutput × TakeoverStore
gives_up given s = (err (value_error "lost"), s)

abbrev outside_with :
    (AutoTakeoverPayload → TakeoverStore → Result AutoTakeoverOutput × TakeoverStore) → Outside
outside_with agent = record {
  budget = 100;
  started = 5;
  before = λ n. 6;
  after = λ n. 8;
  ended = λ n. 9;
  fresh = λ n. second_fresh;
  settings = true;
  head_sha = ok "c9";
  invoke = agent;
  intact = λ d. true;
  schedule_drive = ok tt;
}

abbrev started_store : TakeoverStore
started_store = record { world = blocked_world; takeovers = started }

answers-keeps :
    (given : AutoTakeoverPayload) (s : TakeoverStore)
    → Reachable s.takeovers
    → Reachable (answers given s).1.takeovers
answers-keeps given s reached = reached

execute-Settled_example :
    Settled "t1" "r1" (
      execute (outside_with answers) "t1" (1, blocking_event) first_run first_attempt started_store)
execute-Settled_example =
    execute-Settled (outside_with answers) "t1" (1, blocking_event) first_run first_attempt
      started_store answers-keeps reached_started

-- The answer is corrected once, and the second one is accepted.
recovers :
    (execute
      (outside_with answers)
      "t1"
      (1, blocking_event)
      first_run
      first_attempt
      started_store).0
    ≡ some (ok Exit.recovered)
unfolding computing_takeover
recovers = refl

recovers_runs :
    (execute
      (outside_with answers)
      "t1"
      (1, blocking_event)
      first_run
      first_attempt
      started_store).1.takeovers
    ≡ completed
unfolding computing_takeover
recovers_runs = refl

-- An Agent that raises makes the run fail.
fails_status :
    map
      (λ r. r.status)
      (execute
        (outside_with gives_up)
        "t1"
        (1, blocking_event)
        first_run
        first_attempt
        started_store).1.takeovers.runs
    ≡ failed ∷ []
unfolding computing_takeover
fails_status = refl

-- A project that has just been blocked starts a takeover; a service that stops accepting makes it fail.
abbrev just_blocked : TakeoverStore
just_blocked = record {
  world = record blocked_world { timeline = blocking_event ∷ [] };
  takeovers = no_takeovers;
}

released_starts :
    (after_drive_released true true first_fresh 9 "t1" 0 just_blocked).1.takeovers ≡ started
unfolding computing_takeover
released_starts = refl

released_late : (after_drive_released true true first_fresh 9 "t1" 1 just_blocked).1 ≡ just_blocked
unfolding computing_takeover
released_late = refl

released_stopping :
    map
      (λ r. r.status)
      (after_drive_released true false first_fresh 9 "t1" 0 just_blocked).1.takeovers.runs
    ≡ failed ∷ []
unfolding computing_takeover
released_stopping = refl

attempts-at_most_two_example : count (is_attempt_of "r1") corrected.attempts ≤ 2
attempts-at_most_two_example = attempts-at_most_two corrected "r1" reached_corrected

-- The transition after a failure of the Owner blocks the project.
abbrev blocks_project : ProjectRuntimeState → Result ProjectRuntimeState
blocks_project s = ok (record s { status = blocked })

abbrev world_before : World
world_before = world_of between_runs two_milestones []

abbrev blocked_state : ProjectRuntimeState
blocked_state = record between_runs { status = blocked }

transition-triggers_example :
    new_blocked_event "t1"
      (event_watermark "t1" world_before)
      (moved RuntimeContextChangeReason.owner_activation_failed blocked_state world_before)
    ≡ some (
      1,
      updated_event RuntimeContextChangeReason.owner_activation_failed blocked_state
          (state_changes between_runs blocked_state),
    )
unfolding computing_takeover
transition-triggers_example =
    transition-triggers RuntimeContextChangeReason.owner_activation_failed blocks_project
      world_before
      (moved RuntimeContextChangeReason.owner_activation_failed blocked_state world_before)
      blocked_state refl refl refl

abbrev started_job : Job
started_job = record { trigger = (1, blocking_event); run = first_run; attempt = first_attempt }

released-Sets_example :
    (true ≡ true)
    × (true ≡ true)
    × (new_blocked_event "t1" 0 just_blocked.world ≡ some started_job.trigger)
    × (fence_of "t1" just_blocked.takeovers ≡ none)
    × Sets "t1"
        (some "k1")
        just_blocked.takeovers
        (after_drive_released true true first_fresh 9 "t1" 0 just_blocked).1.takeovers
unfolding computing_takeover
released-Sets_example =
    released-Sets true true first_fresh 9 "t1" 0 just_blocked
      (after_drive_released true true first_fresh 9 "t1" 0 just_blocked).1 started_job
      Reachable.start refl
