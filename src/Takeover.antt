-- ===== src/Takeover.antt =====
-- The automatic takeover of a BLOCKED project: its runs and fenced attempts
-- (src/agentplanex/services/auto_takeover/models.py) with their tables and constraints
-- (src/agentplanex/infrastructure/sqlite/repositories/auto_takeover.py and schema.py there). Rows stand in
-- the order of their insertion, which a query without an order goes by.
pub mod Operations
pub mod Invariant
pub mod Parts
pub mod Statements
pub mod Fence
pub mod Reachable
pub mod Bounds
pub mod Service
use Prim.Native.String.{compare}
use Prim.Native.Nat.{Ordering, compare as compare_nat}
use agent_panel_x.Prelude.{
  [], ℕ, zero, suc, String, Bool, true, false, not, ◌&&◌, ◌||◌, Option, none, some, List, ◌∷◌, ◌==◌,
  is_none, is_some, opt_eq, filter, find, head?, fence_error, Result, err, raise_if,
}
use agent_panel_x.Table.{place}

pub data TakeoverStatus : Type 0 where
  running takeover_yes takeover_no failed : TakeoverStatus

pub data AttemptStatus : Type 0 where
  active invalid completed attempt_failed : AttemptStatus

pub record ArtifactDescriptor : Type 0 where
  pub uri : String
  pub project_relative_path : String
  pub media_type : String
  pub size : ℕ
  pub sha256 : String

pub record TakeoverRun : Type 0 where
  pub run_id : String
  pub triage_id : String
  pub trigger_event_id : ℕ
  pub status : TakeoverStatus
  pub decision : Option String
  pub attribution : Option ArtifactDescriptor
  pub error : Option String
  pub started_at : ℕ
  pub finished_at : Option ℕ
  pub issue_number : Option ℕ
  pub issue_url : Option String

pub record TakeoverAttempt : Type 0 where
  pub attempt_id : String
  pub run_id : String
  pub ordinal : ℕ
  pub status : AttemptStatus
  pub fence_token : Option String
  pub error : Option String
  pub started_at : ℕ
  pub finished_at : Option ℕ

pub record Takeovers : Type 0 where
  pub runs : List TakeoverRun
  pub attempts : List TakeoverAttempt

abbrev pub is_running : TakeoverStatus → Bool
is_running running = true
is_running _ = false

abbrev pub is_active : AttemptStatus → Bool
is_active active = true
is_active _ = false

-- `status in {YES, NO}`, and the decision that it stores.
abbrev pub decision_of : TakeoverStatus → Option String
decision_of takeover_yes = some "YES"
decision_of takeover_no = some "NO"
decision_of _ = none

abbrev pub eq_nat : ℕ → ℕ → Bool
eq_nat a b = elim (compare_nat a b) [ Ordering.eq ↦ true | _ ↦ false ]

abbrev pub has_run_id : String → TakeoverRun → Bool
has_run_id run_id r = r.run_id == run_id

abbrev pub has_trigger : ℕ → TakeoverRun → Bool
has_trigger trigger_event_id r = eq_nat r.trigger_event_id trigger_event_id

abbrev pub active_of : String → TakeoverRun → Bool
active_of triage_id r = r.triage_id == triage_id && is_running r.status

abbrev pub running_with_id : String → TakeoverRun → Bool
running_with_id run_id r = r.run_id == run_id && is_running r.status

abbrev pub active_attempt_of : String → TakeoverAttempt → Bool
active_attempt_of run_id a = a.run_id == run_id && is_active a.status

-- `get`, `get_by_trigger`, `get_active` and `get_active_attempt`.
abbrev pub get : String → Takeovers → Option TakeoverRun
get run_id s = find (has_run_id run_id) s.runs

abbrev pub get_by_trigger : ℕ → Takeovers → Option TakeoverRun
get_by_trigger trigger_event_id s = find (has_trigger trigger_event_id) s.runs

abbrev pub get_active : String → Takeovers → Option TakeoverRun
get_active triage_id s = find (active_of triage_id) s.runs

abbrev pub get_active_attempt : String → Takeovers → Option TakeoverAttempt
get_active_attempt run_id s = find (active_attempt_of run_id) s.attempts

-- `ORDER BY started_at DESC, run_id DESC`.
unfoldable pub newer : TakeoverRun → TakeoverRun → Bool
newer a b = elim (compare_nat a.started_at b.started_at) [
  | Ordering.gt ↦ true
  | Ordering.eq ↦ elim (compare a.run_id b.run_id) [ Ordering.gt ↦ true | _ ↦ false ]
  | Ordering.lt ↦ false
]

unfoldable pub newest_first : List TakeoverRun → List TakeoverRun
newest_first [] = []
newest_first (r ∷ rs) = place newer r (newest_first rs)

unfoldable pub latest : String → Takeovers → Option TakeoverRun
unfolding newer newest_first
latest triage_id s = head? (newest_first (filter (λ r. r.triage_id == triage_id) s.runs))

take : {A : Type 0} → ℕ → List A → List A
take zero xs = []
take (suc n) [] = []
take (suc n) (x ∷ xs) = x ∷ take n xs

unfoldable pub list_reports : String → (limit : ℕ) → Takeovers → List TakeoverRun
unfolding newer newest_first take
list_reports triage_id limit s =
    take limit
      (newest_first (filter (λ r. r.triage_id == triage_id && is_some r.attribution) s.runs))

abbrev pub has_attempt_id : String → TakeoverAttempt → Bool
has_attempt_id attempt_id a = a.attempt_id == attempt_id

abbrev pub has_token : String → TakeoverAttempt → Bool
has_token token a = opt_eq a.fence_token (some token)

abbrev pub has_ordinal : String → ℕ → TakeoverAttempt → Bool
has_ordinal run_id ordinal a = a.run_id == run_id && eq_nat a.ordinal ordinal

-- `require_active_fence`.
unfoldable pub check_attempt : Option TakeoverAttempt → Option String → Result (Unit {0})
check_attempt none token = err (fence_error "Active AutoTakeover requires its current fence")
check_attempt (some a) token =
    raise_if (is_none token || not (opt_eq a.fence_token token))
      (fence_error "Active AutoTakeover requires its current fence")

unfoldable pub check_active : Option TakeoverRun → Option String → Takeovers → Result (Unit {0})
check_active none token s =
    raise_if (is_some token) (fence_error "AutoTakeover fence is no longer active")
check_active (some r) token s = check_attempt (get_active_attempt r.run_id s) token

unfoldable pub require_active_fence : String → Option String → Takeovers → Result (Unit {0})
require_active_fence triage_id token s = check_active (get_active triage_id s) token s

-- `require_mutation_fence`: the Feature of the first running run of the project.
unfoldable pub check_first : Option TakeoverRun → Option String → Takeovers → Result (Unit {0})
check_first none token s =
    raise_if (is_some token) (fence_error "AutoTakeover fence is no longer active")
check_first (some r) token s = require_active_fence r.triage_id token s

unfoldable pub require_mutation_fence : Option String → Takeovers → Result (Unit {0})
require_mutation_fence token s = check_first (find (λ r. is_running r.status) s.runs) token s
