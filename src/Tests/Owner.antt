-- ===== src/Tests/Owner.antt =====
-- The Owner's mailbox at concrete inputs.
use agent_panel_x.Prelude.{
  [], String, ◌≡◌, refl, Bool, map, Option, none, some, ◌∷◌, ok, err, find, Result, value_error,
}
use agent_panel_x.State.{Status, blocked}
use agent_panel_x.Event.{ExecutionEventType}
use agent_panel_x.Runtime
use agent_panel_x.Runtime.{idle, OwnerWorkState, ProjectOwnerTask, user_input_task}
use agent_panel_x.Owner.{ProjectOwnerTaskType, model, OwnerActivation}
use agent_panel_x.Owner.Activations.{claimed, unfinished_of}
use agent_panel_x.Owner.Activations.Reachable.{Reachable, IsSound, reachable_activations-Sound}
use agent_panel_x.Owner.Lifecycle.{AgentExitStatus, AgentExit, new_activation, work_state}
use agent_panel_x.Owner.Lifecycle.Moves.{Operation, Move}
use agent_panel_x.Owner.Lifecycle.Refinement.{Operates, operates-Move}
use agent_panel_x.Owner.Context.{OwnerStore, message_appended, view}
use agent_panel_x.Takeover.{Takeovers}
use agent_panel_x.Owner.Context.Drive.{
  OwnerRun, claim_owner, drive_owner, ToolAnswer, ToolRun, drive_owner_tool, reply_owner,
  reconcile_interrupted_owner,
}
use agent_panel_x.Owner.Context.Endings.{Ended}
use agent_panel_x.Owner.Context.Automatic.{drive_owner-Ended}
use agent_panel_x.Owner.Context.View.{submit_owner_input-refines}
use agent_panel_x.Tests.Computing.{computing}
use agent_panel_x.Tests.Computing.Owner.{computing_owner}
use agent_panel_x.Tests.Data.{two_milestones, world_of, between_runs}

abbrev first_input : OwnerActivation
first_input = new_activation "a1" "t1" ProjectOwnerTaskType.user_input "m1" none none 3

abbrev first_run : OwnerActivation
first_run = claimed model 5 first_input

reached_input : Reachable (first_input ∷ [])
unfolding computing_owner
reached_input = Reachable.inserting first_input [] (first_input ∷ []) Reachable.start refl refl

reached_run : Reachable (first_run ∷ [])
unfolding computing_owner
reached_run =
    Reachable.claiming "t1" 5 model first_run (first_input ∷ []) (first_run ∷ []) reached_input refl

reachable_activations-Sound_example : IsSound (first_run ∷ [])
reachable_activations-Sound_example = reachable_activations-Sound (first_run ∷ []) reached_run

operates-Move_example :
    Move Operation.claiming_model
      (work_state "t1" (first_input ∷ []))
      (work_state "t1" (first_run ∷ []))
    × Reachable (first_run ∷ [])
unfolding computing_owner
operates-Move_example =
    operates-Move "t1" (first_input ∷ []) (first_run ∷ []) Operation.claiming_model reached_input
      (Operates.claims_model 5 first_run (first_run ∷ []) refl)

abbrev no_takeovers : Takeovers
no_takeovers = record { runs = []; attempts = [] }

abbrev empty_store : OwnerStore
empty_store = record {
  world = world_of between_runs two_milestones [];
  activations = [];
  summary_id = none;
  conversation = [];
  takeovers = no_takeovers;
  mutation_fence = none;
}

abbrev text_of : ProjectOwnerTask → String
text_of (user_input_task content) = content
text_of _ = "{}"

abbrev told_store : OwnerStore
told_store = record {
  world = record (world_of between_runs two_milestones []) {
    owner_inputs = user_input_task "go on" ∷ [];
    owner_message_id = some "m1";
  };
  activations = first_input ∷ [];
  summary_id = none;
  conversation = message_appended "m1" (some first_input) ∷ [];
  takeovers = no_takeovers;
  mutation_fence = none;
}

submit_owner_input-refines_example :
    (Runtime.submit_owner_input (user_input_task "go on") "m1" (view empty_store)
      ≡ ok (view told_store))
    × Reachable told_store.activations
unfolding computing computing_owner
submit_owner_input-refines_example =
    submit_owner_input-refines text_of (user_input_task "go on") "m1" "a1" 3 empty_store told_store
      first_input Reachable.start refl

abbrev pub waiting_store : OwnerStore
waiting_store = record empty_store { activations = first_input ∷ [] }

-- An Agent that replies.
abbrev pub replies : OwnerRun
replies a s = (ok (record { status = AgentExitStatus.reply_to_human; content = "done" }), s)

abbrev replied : AgentExit
replied = record { status = AgentExitStatus.reply_to_human; content = "done" }

drive_owner-Ended_example :
    (old : OwnerActivation) × (s' : OwnerStore) × (b : OwnerActivation) × (t : OwnerStore) × (find
        (unfinished_of "t1")
        waiting_store.activations
      ≡ some old)
    × (claim_owner 5 waiting_store ≡ ok (some (claimed model 5 old), s'))
    × ((drive_owner replies 5 7 waiting_store
          ≡ (ok (record { activation = some b; exit = some replied }), t))
        × ((last : OwnerActivation) × Ended (claimed model 5 old) last replied 7 s' b t))
unfolding computing computing_owner
drive_owner-Ended_example =
    drive_owner-Ended replies 5 7 waiting_store reached_input refl refl refl (λ a s kept. kept)

-- An Agent that raises blocks the project, and the Timeline holds the run.
abbrev raises : OwnerRun
raises a s = (err (value_error "lost"), s)

raises_status : (drive_owner raises 5 7 waiting_store).1.world.state.status ≡ blocked
unfolding computing computing_owner
raises_status = refl

raises_timeline :
    map (λ e. e.event_type) (drive_owner raises 5 7 waiting_store).1.world.timeline
    ≡ ExecutionEventType.react_loop_entered ∷ ExecutionEventType.runtime_context_updated
      ∷ ExecutionEventType.react_loop_exited ∷ []
unfolding computing computing_owner
raises_timeline = refl

-- A Tool step without an exit waits for the next one; a step that ends leaves the mailbox idle.
abbrev observes : ToolRun
observes a s = (ToolAnswer.answered none, s)

observes_state :
    work_state "t1" (drive_owner_tool observes 5 7 waiting_store).1.activations
    ≡ OwnerWorkState.waiting_for_control
unfolding computing computing_owner
observes_state = refl

abbrev after_observing : OwnerStore
after_observing = (drive_owner_tool observes 5 7 waiting_store).1

reply_state : work_state "t1" (reply_owner "bye" "m2" 8 9 9 after_observing).1.activations ≡ idle
unfolding computing computing_owner
reply_state = refl

empty_reply_status : (reply_owner " " "m2" 8 9 9 after_observing).1.world.state.status ≡ blocked
unfolding computing computing_owner
empty_reply_status = refl

-- The recovery after a stopped process.
abbrev status_after : Result (Bool × OwnerStore) → Option Status
status_after (ok (b, s)) = some s.world.state.status
status_after (err e) = none

recovered_status :
    status_after (reconcile_interrupted_owner 9 "stopped" after_observing) ≡ some blocked
unfolding computing computing_owner
recovered_status = refl
