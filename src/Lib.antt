-- ===== src/Lib.antt =====
-- AgentPanelX drives the development of one Feature (a "Triage") of a project. A Project Owner agent
-- publishes Milestone Views and decides Candidates; Delivery runs the ordered Stages of the first
-- pending Milestone, each of which turns an input commit into an output commit; the output of the last
-- Stage is the Candidate, which the Owner accepts, rejects or sends back for one revision. Everything
-- that is decided stands in one persisted state, its tables and a Timeline of events. Where the project
-- becomes BLOCKED, an external Agent may take it over once, fenced against every other writer.
--
-- The parts, and the files that model them:
--
-- - State.antt: `ProjectRuntimeState` with the checks that every construction of it goes through
--   (src/agentplanex/domains/project_runtime_state.py). State/Validity.antt says what they ensure.
-- - Event.antt: the kinds and reasons of events (src/agentplanex/domains/execution_event.py).
-- - Runtime.antt: the store behind one Feature and the operations of a transaction on it: `transition`
--   is `apply_state_transition` (src/agentplanex/services/project_runtime_context/_state.py),
--   `publish` and `submit_owner_input` are those of the transaction (context.py and _activation.py
--   there). Runtime/Changes.antt is `_state_changes`.
-- - Table.antt and below: a SQLite table as a list of rows, with the statements of the repositories and what
--   they do to the rows that a test counts or finds.
-- - Owner.antt and below: the Owner's mailbox. Owner/Activations.antt is the table of activations
--   (src/agentplanex/infrastructure/sqlite/repositories/owner_activation.py), Owner/Lifecycle.antt the
--   lifecycle (src/agentplanex/services/project_runtime_context/_activation.py), Owner/Context.antt and
--   Owner/Context/Drive.antt the operations of the Runtime Context on it (context.py there).
--   Owner/Lifecycle/Refinement.antt and Owner/Context/View.antt relate it to the abstract mailbox, which
--   Delivery and Planning submit to (`OwnerWorkState` in Runtime.antt). Owner/Context/Fenced.antt joins it to
--   the fence of a takeover.
-- - Delivery/Models.antt, Delivery/Snapshot.antt: the models of
--   src/agentplanex/services/delivery/models.py with their checks, the completion of a Milestone and
--   the merge of Views; the Snapshot table.
-- - Delivery/StageRuns.antt: the StageRun table
--   (src/agentplanex/infrastructure/sqlite/repositories/stage_run.py) with its primary key and the
--   unique index on the active row of a Feature.
-- - Delivery/Driver.antt and below: src/agentplanex/services/delivery/_driver.py. Driver/Queue.antt is
--   `queue_run`; Driver/Stages.antt is `_claim_next_stage`, `_succeed_stage`, `_fail_stage` and
--   `reconcile_interrupted_work`; Driver/Contract.antt is `_stage_contract` and the state changes;
--   Driver/Candidate.antt is `candidate_contract` and `queue_candidate_revision`.
-- - Delivery/Service.antt and below: src/agentplanex/services/delivery/_service.py. Service/Publish.antt
--   is `update_milestones`; Service/Runs.antt the requests, approvals and rejections of a Run;
--   Service/Decide.antt, Service/Target.antt and Service/History.antt `decide_milestone_candidate`.
-- - Planning.antt and below: src/agentplanex/services/planning/_service.py, the request of a Plan and, in
--   Planning/Approval.antt, its approval and rejection.
-- - Takeover.antt and below: the automatic takeover of a BLOCKED project. Takeover.antt and
--   Takeover/Operations.antt are the repository of its runs and fenced attempts
--   (src/agentplanex/infrastructure/sqlite/repositories/auto_takeover.py, with the constraints of
--   schema.py there); Takeover/Service.antt, Takeover/Service/Answer.antt and
--   Takeover/Service/Execute.antt are src/agentplanex/services/auto_takeover/_service.py, from the event
--   that starts a takeover to the worker's loop. Takeover/Fence.antt reads the fence off the tables as a
--   map from Features to tokens, and Takeover/Service/Triggers.antt joins it to the transitions of Runtime.antt.
-- - Tests.antt and below: runs at concrete inputs.
--
-- How the code corresponds to the model:
--
-- - An operation is a function from the store to a result with the new store (`Action`). A raise is an
--   error value and carries no store, since `transaction()` rolls back. Where a method has more than one
--   transaction, the store between them is passed on explicitly: `update_milestones` returns a store with
--   its error too, because the Hard Gate's events stay. Only one operation runs at a time, which the
--   Runtime Context's lock ensures, so the second reading of a state in one operation sees the first.
-- - `transaction()` begins with the mutation fence guard, which raises where an AutoTakeover fences the caller out
--   (`require_mutation_fence` in Takeover.antt). The operations of the Owner run it in every transaction
--   (`mutation_fence_guard`). The operations of Delivery and Planning leave it out: it only adds an error, and
--   their theorems suppose that the operation returns.
-- - What the code takes from outside is an argument: the clock, the fresh identities, the row that the
--   message history gives an Owner input, the digest of a View, the answers of Git (Delivery/Git.antt,
--   `Integrate` in Service/Target.antt, `PlanRepository` in Planning.antt) and of the Hard Gates
--   (`MilestoneHardGate`, `PlanHardGate`). What a theorem needs of them is a hypothesis (`ReadsOnly` and
--   `KeepsState`: a review does not write to the store).
-- - Times are numbers of type ℕ. A table is a list in the order of its queries; `fail_active` returns
--   its rows in that order. Error messages keep their constant part.
-- - What the external Agent of a takeover does to the store is an argument (`Outside`); the theorem on the worker
--   supposes that it changes the tables of takeovers only by their repository (`KeepsReachable`). The identity of
--   an event is its place in the Timeline. The worker's loop runs on fuel for two rounds, which is enough: the
--   second attempt of a run is never corrected.
-- - The two walks over revisions run on fuel. `revision_root` has two rounds more than the table has
--   rows, which is enough because each round marks another row as seen. `revision_base` has as many; the
--   code's loop has no such mark, and it is enough where revisions point to earlier rows.
--
-- Not modelled: the identity, the time and the payload's secondary fields of an event (invocation
-- identities, artifacts, documents); `drive_next`, which connects the transactions of the driver with the
-- executor, the worktree and the Git refs; what `reconcile_interrupted_work` does after its transaction
-- for each failed StageRun (the end of its terminal, an event STAGE_RUN_FAILED, the repair of its
-- worktree); the Owner Agent between two transactions, which is an argument;
-- the Runtime's own driver, notifications and workspaces, which use the state through the operations
-- above; the request and result files of an external Agent, the command lines of its payload, and the
-- thread pool of the takeovers; and all input and output (SQLite, Git, model gateways, web,
-- command lines, frontend).
pub mod Prelude
pub mod Table
pub mod Event
pub mod State
pub mod Runtime
pub mod Owner
pub mod Delivery
pub mod Planning
pub mod Takeover
pub mod Tests
