-- ===== src/Takeover/Service/Execute.antt =====
-- The worker of a takeover (`_execute`, `_payload` and `_complete` of
-- src/agentplanex/services/auto_takeover/_service.py). The external Agent is an argument: it may use every
-- operation of the store while it runs. The command lines of a payload are left out.
use Prim.Native.String
use agent_panel_x.Prelude.{
  [], ◌>>=◌, ◌>>◌, ℕ, zero, suc, String, Bool, not, ◌||◌, ◌+◌, ◌-◌, Option, none, some, List, ◌∷◌,
  ltb, leb, value_error, timeout_error, error_message, if◌then◌else◌, Error, Result, ok, err,
  raise_if, or_raise,
}
use agent_panel_x.Event.{ExecutionEvent, ExecutionEventType, PayloadValue}
use agent_panel_x.State.{ProjectRuntimeState}
use agent_panel_x.Runtime.{World}
use agent_panel_x.Takeover.{
  TakeoverStatus, takeover_yes, takeover_no, ArtifactDescriptor, TakeoverRun, TakeoverAttempt,
  eq_nat,
}
use agent_panel_x.Takeover.Operations.{Fresh, correct, complete}
use agent_panel_x.Takeover.Service.{
  TakeoverStore, TakeoverAction, state_of, insert_event, started_payload, fail, settle_takeover,
}
use agent_panel_x.Takeover.Service.Answer.{Decision, AutoTakeoverOutput, or_next, result_mismatch}

pub record AutoTakeoverPayload : Type 0 where
  pub triage_id : String
  pub trigger_event_id : ℕ
  pub blocked_event : List (String × PayloadValue)
  pub attempt_id : String
  pub ordinal : ℕ
  pub fence_token : String
  pub remaining : ℕ
  pub agentpanelx_source_commit : String
  pub target_feature_commit : String
  pub correction : Option String

-- What the worker takes from outside. The readings of the clock and the fresh identities are those of
-- the round with an attempt's ordinal.
pub record Outside : Type 0 where
  pub budget : ℕ
  pub started : ℕ
  pub before : ℕ → ℕ
  pub after : ℕ → ℕ
  pub ended : ℕ → ℕ
  pub fresh : ℕ → Fresh
  pub settings : Bool
  pub head_sha : Result String
  pub invoke : AutoTakeoverPayload → TakeoverStore → Result AutoTakeoverOutput × TakeoverStore
  pub intact : ArtifactDescriptor → Bool
  pub schedule_drive : Result (Unit {0})

-- `_payload`.
target_commit : Option ProjectRuntimeState → Option String
target_commit none = none
target_commit (some state) = state.git_main_version

unfoldable pub payload :
    Outside
    → (triage_id : String) → (trigger : ℕ × ExecutionEvent) → TakeoverAttempt
    → (remaining : ℕ) → (correction : Option String) → World
    → Result AutoTakeoverPayload
unfolding target_commit
payload outside triage_id trigger attempt remaining correction w = do
  token ← or_raise attempt.fence_token (value_error "AutoTakeover Attempt has no active fence")
  raise_if (not outside.settings) (value_error "AutoTakeover Runtime settings file is unavailable")
  target ←
      or_raise (target_commit (state_of triage_id w))
        (value_error "AutoTakeover Runtime has no target Feature commit")
  raise_if (not (eq_nat attempt.ordinal 1 || eq_nat attempt.ordinal 2))
      (value_error "AutoTakeover Attempt ordinal is invalid")
  source ← outside.head_sha
  ok (record {
    triage_id = triage_id;
    trigger_event_id = trigger.0;
    blocked_event = trigger.1.payload;
    attempt_id = attempt.attempt_id;
    ordinal = attempt.ordinal;
    fence_token = token;
    remaining = (if ltb remaining 1000 then 1000 else remaining);
    agentpanelx_source_commit = source;
    target_feature_commit = target;
    correction = correction;
  })

-- The integrity of the artifact of a result.
unfoldable pub result_error : Outside → Option ArtifactDescriptor → Option String
result_error outside none = none
result_error outside (some descriptor) =
    if outside.intact descriptor
    then none
    else some "NO Attribution Artifact failed integrity validation"

-- `_complete`.
abbrev pub status_of : Decision → TakeoverStatus
status_of Decision.yes = takeover_yes
status_of Decision.no = takeover_no

abbrev pub decision_value : Decision → String
decision_value Decision.yes = "YES"
decision_value Decision.no = "NO"

abbrev pub uri_of : Option ArtifactDescriptor → Option String
uri_of none = none
uri_of (some descriptor) = some descriptor.uri

abbrev pub completed_payload : TakeoverRun → AutoTakeoverOutput → List (String × PayloadValue)
completed_payload run result =
    ("run_id", PayloadValue.str run.run_id)
    ∷ ("trigger_event_id", PayloadValue.number run.trigger_event_id)
    ∷ ("decision", PayloadValue.str (decision_value result.decision))
    ∷ ("attribution", PayloadValue.opt_str (uri_of result.attribution))
    ∷ []

unfoldable pub complete_run :
    (now : ℕ) → String → TakeoverRun → AutoTakeoverOutput → TakeoverAction (Unit {0})
complete_run now triage_id run result s = do
  done ← complete now run.run_id (status_of result.decision) result.attribution none s.takeovers
  ok (
    tt,
    insert_event triage_id ExecutionEventType.auto_takeover_completed (completed_payload run result)
        (record s { takeovers = done.1 }),
  )

-- How a round of the loop ends: with a decision, or with a correction for another round.
pub data RoundEnd : Type 0 where
  decided : Decision → RoundEnd
  again : TakeoverAttempt → String → RoundEnd

-- The transaction at the end of a round.
unfoldable pub conclude :
    Outside
    → String
    → TakeoverRun
    → TakeoverAttempt
    → AutoTakeoverOutput
    → (mismatch : Option String) → TakeoverAction RoundEnd
conclude outside triage_id run attempt result none s = do
  done ← complete_run (outside.ended attempt.ordinal) triage_id run result s
  ok (decided result.decision, done.1)
conclude outside triage_id run attempt result (some mismatch) s = do
  raise_if (eq_nat attempt.ordinal 2) (
      value_error
        (String.◌++◌ "AutoTakeover result remained inconsistent after correction: " mismatch))
  corrected ← correct (outside.fresh attempt.ordinal) run.run_id mismatch s.takeovers
  ok (
    again corrected.0 mismatch,
    insert_event triage_id ExecutionEventType.auto_takeover_started
        (started_payload run corrected.0 (some mismatch)) (record s { takeovers = corrected.1 }),
  )

unfoldable pub after_invoke :
    Outside
    → String
    → TakeoverRun
    → TakeoverAttempt
    → (deadline : ℕ) → Result AutoTakeoverOutput
    → TakeoverStore
    → Result RoundEnd × TakeoverStore
after_invoke outside triage_id run attempt deadline (err e) s = (err e, s)
after_invoke outside triage_id run attempt deadline (ok result) s =
    if leb deadline (outside.after attempt.ordinal)
    then (err (timeout_error "AutoTakeover exhausted its 1800-second budget"), s)
    else settle_takeover
        (conclude outside triage_id run attempt result
          (or_next (result_error outside result.attribution)
            (result_mismatch triage_id run.run_id attempt result s))
          s)
        s

unfoldable pub with_payload :
    Outside
    → String
    → TakeoverRun
    → TakeoverAttempt
    → (deadline : ℕ) → Result AutoTakeoverPayload
    → TakeoverStore
    → Result RoundEnd × TakeoverStore
unfolding after_invoke
with_payload outside triage_id run attempt deadline (err e) s = (err e, s)
with_payload outside triage_id run attempt deadline (ok given) s =
    let answer = outside.invoke given s in
    after_invoke outside triage_id run attempt deadline answer.0 answer.1

unfoldable pub take_round :
    Outside
    → String
    → (trigger : ℕ × ExecutionEvent) → TakeoverRun
    → TakeoverAttempt
    → (correction : Option String) → TakeoverStore
    → Result RoundEnd × TakeoverStore
unfolding with_payload
take_round outside triage_id trigger run attempt correction s =
    let deadline = outside.started + outside.budget in
    let now = outside.before attempt.ordinal in
    if leb deadline now
    then (err (timeout_error "AutoTakeover exhausted its 1800-second budget"), s)
    else with_payload outside triage_id run attempt deadline
        (payload outside triage_id trigger attempt (deadline - now) correction s.world) s

-- `_execute`, on fuel for the rounds: `none` is the end of the fuel. An exception of a round, or of
-- `schedule_drive` after a decision, makes the run fail if it is still RUNNING.
pub data Exit : Type 0 where
  recovered still_blocked exit_failed : Exit

abbrev pub failed_exit :
    Result (Unit {0} × TakeoverStore) → TakeoverStore → Option (Result Exit) × TakeoverStore
failed_exit (ok (u, s')) s = (some (ok Exit.exit_failed), s')
failed_exit (err e) s = (some (err e), s)

unfoldable pub give_up :
    Outside
    → String
    → TakeoverRun
    → TakeoverAttempt
    → Error
    → TakeoverStore
    → Option (Result Exit) × TakeoverStore
give_up outside triage_id run attempt error s =
    failed_exit (fail triage_id run (error_message error) (outside.ended attempt.ordinal) s) s

unfoldable pub leave :
    Outside
    → String
    → TakeoverRun
    → TakeoverAttempt
    → Decision
    → TakeoverStore
    → Option (Result Exit) × TakeoverStore
leave outside triage_id run attempt Decision.no s = (some (ok Exit.still_blocked), s)
leave outside triage_id run attempt Decision.yes s = elim outside.schedule_drive [
  | ok u ↦ (some (ok Exit.recovered), s)
  | err e ↦ give_up outside triage_id run attempt e s
]

abbrev pub Rounds : Type 0
Rounds = TakeoverAttempt → Option String → TakeoverStore → Option (Result Exit) × TakeoverStore

unfoldable pub after_round :
    Outside
    → String
    → TakeoverRun
    → TakeoverAttempt
    → (rest : Rounds) → Result RoundEnd × TakeoverStore
    → Option (Result Exit) × TakeoverStore
after_round outside triage_id run attempt rest (err e, s) =
    give_up outside triage_id run attempt e s
after_round outside triage_id run attempt rest (ok (decided decision), s) =
    leave outside triage_id run attempt decision s
after_round outside triage_id run attempt rest (ok (again corrected mismatch), s) =
    rest corrected (some mismatch) s

unfoldable pub rounds :
    (fuel : ℕ) → Outside → String → (trigger : ℕ × ExecutionEvent) → TakeoverRun → Rounds
rounds zero outside triage_id trigger run attempt correction s = (none, s)
rounds (suc fuel) outside triage_id trigger run attempt correction s =
    after_round outside triage_id run attempt (rounds fuel outside triage_id trigger run)
      (take_round outside triage_id trigger run attempt correction s)

unfoldable pub execute :
    Outside
    → String
    → (trigger : ℕ × ExecutionEvent) → TakeoverRun
    → TakeoverAttempt
    → TakeoverStore
    → Option (Result Exit) × TakeoverStore
unfolding rounds
execute outside triage_id trigger run attempt s =
    rounds 2 outside triage_id trigger run attempt none s
