-- ===== src/Lib.antt =====
-- Loop Engineering: the decisions of the control plane, from observation to a sent effect.
--
-- An epoch of observations is reconciled, a work is selected, and a supervisor decides to continue, to
-- wait, to ask for an intervention or to report completion. The first generation decides on a whole
-- epoch (`MissionSupervisor`); the second derives each work's next transition from its evidence
-- (`V2Supervisor`), inside the loop of the autonomous runner, which records dispatches and the state of
-- its run in PostgreSQL. A packet in flight is taken up after a stop by the resume coordinator, which
-- reads pending effects back from GitHub; a new effect is sent by the executor, after a read-back and
-- the write gate.
--
-- Which file models which source, all under src/loop_engineering:
--   Models              models.py, and of config.py the fields that the decisions read
--   Reconciliation      reconciliation.py: `reconcile_global`, `reconcile_work`, `reconcile`
--   Selection           the order of works that scheduler.py and v2_supervisor.py share
--   Scheduler           scheduler.py: `select_work`, `canonical_lineage`, `schedule_key`
--   WriteGate           write_gate.py
--   CiGate, ReviewGate  ci_gate.py, review_gate.py
--   Health              health.py: `plan_improvements`, and `advance_health` in Health/Advance; of
--                       health_state.py `durable_identity` and `canonicalize_event`
--   MissionSupervisor   supervisor.py: `decide`, `_decide_primary`, `_certificate`, `_packet`
--   V2Supervisor        v2_supervisor.py: `derive_transition`, `_select`, `schedule_key`, `decide`
--   WorkState           work_state.py: the rows
--   WorkStore           the tables, and the statements on them: of work_state.py in WorkStore/Records,
--                       Transaction, Recovery and Reports; of v2_execution_state.py in WorkStore/Plan,
--                       Cutover, Execution, Issue, Start and Finalize. WorkStore/Steps is a step
--                       relation of the statements that V2 code sends to them, interleaved in any
--                       order; a work's row is written back, as v2_resume.py, v2_work_queue.py and
--                       v2_autonomous_transitions.py do, with the latest packet that the stored row
--                       has then, so that an issue between such a read and its write is not covered
--   V2Operations        v2_operations.py: `migrate_issue`, `issue_packet`
--   V2Resume            v2_resume.py: `V2ResumeCoordinator.resume`
--   V2EffectReadback    v2_effect_readback.py: `GitHubEffectReadbackAdapter.readback`
--   V2EffectExecutor    v2_effect_executor.py: `GitHubV2EffectExecutor.execute`; its copies of `_pairs`,
--                       `_target_suffix` and `_target_number` are those of the read-back
--   V2AutonomousRuntime v2_autonomous_runtime.py: runtimes and dispatches; of v2_autonomous_runner.py
--                       `_without_dispatched`, `_current_if_selectable`, `_dispatch_status`
--   V2AutonomousRunner  v2_autonomous_runner.py: `_terminal_decision`; `run` and `_run` in
--                       V2AutonomousRunner/Run, a round's dispatch in Dispatching, `_planned_by_issue`
--                       and `_observe_all` in Loop, and the monad of their calls in Action
--   Prelude             Python's equality, lists and texts as the program uses them
--   Examples            tests at concrete inputs, and the theorems applied there
--
-- Dataclasses are records and enums are data types. A dict is the list of its items; a table is the
-- list of its rows. A text is a native text, by code points. What is written through a port is a list
-- of actions; what a port answers is a function of its argument, so a port that changes its mind
-- within one call is not modelled, but for the ports of the runner. An exception is the answer `none`
-- where the file says so. The only fuel is that of `decimal`, the number itself plus one, which bounds
-- the number of its digits; the loop of the runner recurs on the iterations that are left, of which it
-- is given its limit.
--
-- A statement of SQL is what it does to the tables: its parts read the tables as they were before it, and
-- it writes all of its rows or, where a unique index or a value in it is refused, none. The runner runs on
-- a world of a type of its own, which each port changes; the world also notes the schedule keys of the
-- transitions that were executed.
--
-- Parameters, for code that is not in the repository: `digest` for `json.dumps` with `hashlib.sha256`,
-- `sha256` for the hash of a text, the dates after the planning date, the runner of commands,
-- `json.loads`, `urllib.parse.quote`, and Unicode's table of digits.
--
-- Not modelled: the parsing of configuration, the text of SQL statements, processes, worktrees and
-- command lines, and the tools and models that a transition runs. The JSON encoding of health events,
-- the steps on branches and pull requests, the observer of lineages and the closing of a goal are left out
-- too. The checks and foreign keys that the database itself declares are taken to hold.
mod Prelude
pub mod Models
pub mod Reconciliation
pub mod Selection
pub mod Scheduler
pub mod WriteGate
pub mod CiGate
pub mod ReviewGate
pub mod Health
pub mod MissionSupervisor
pub mod V2Supervisor
pub mod WorkState
pub mod WorkStore
pub mod V2Resume
pub mod V2Operations
pub mod V2EffectReadback
pub mod V2EffectExecutor
pub mod V2AutonomousRuntime
pub mod V2AutonomousRunner
mod Examples
