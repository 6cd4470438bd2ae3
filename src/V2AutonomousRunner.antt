-- ===== src/V2AutonomousRunner.antt =====
-- src/loop_engineering/v2_autonomous_runner.py: how a run of the autonomous runner ends on a decision of
-- the supervisor, `_terminal_decision`. `completion` is what `GoalCompletionPort.finalize` answers when
-- it is asked. The answer is the result and the update that is written to the runtime before it; an
-- update that the store refuses raises there instead.
pub mod Ending
pub mod Action
pub mod Loop
pub mod Dispatching
pub mod Run
pub mod Recorded
pub mod Rounds
pub mod Iterations
pub mod Bounded
use loop_engineering.Prelude.{ℕ, String, Bool, true, false, ◌&&◌, Option, none, some}
use loop_engineering.Prelude.{if◌then◌else◌, leb}
use loop_engineering.V2Supervisor.{
  V2SupervisorDisposition, continue, yield_external, intervention_required as must_intervene,
  complete_goal, V2SupervisorDecision,
}
use loop_engineering.V2AutonomousRuntime.{RuntimeUpdate}

pub data AutonomousRunStatus : Type 0 where
  goal_completed progressed waiting intervention_required iteration_limit : AutonomousRunStatus

pub record AutonomousRunResult : Type 0 where
  pub status : AutonomousRunStatus
  pub detail : String
  pub iterations : ℕ
  pub runtime_identity : String
  pub current_work_identity : Option String

pub data GoalCompletionStatus : Type 0 where
  pass waiting blocked : GoalCompletionStatus

pub record GoalCompletionResult : Type 0 where
  pub status : GoalCompletionStatus
  pub detail : String

-- The arguments of `_terminal_decision` after the registration and the bootstrap.
pub record Round : Type 0 where
  pub runtime_identity : String
  pub current_work_identity : Option String
  pub decision : V2SupervisorDecision
  pub fingerprint : String
  pub no_progress : ℕ
  pub pending_effect : Bool
  pub iteration : ℕ

abbrev pub Ended : Type 0
Ended = AutonomousRunResult × RuntimeUpdate

result : Round → AutonomousRunStatus → String → Option String → AutonomousRunResult
result round status detail work = record {
  status = status;
  detail = detail;
  iterations = round.iteration;
  runtime_identity = round.runtime_identity;
  current_work_identity = work;
}

update : Round → String → Option String → Option String → ℕ → String → RuntimeUpdate
update round status work key no_progress detail = record {
  status = status;
  current_work_identity = work;
  schedule_key = key;
  progress_fingerprint = some round.fingerprint;
  no_progress_count = no_progress;
  detail = detail;
}

-- After `finalize`, by its status.
complete : Round → GoalCompletionResult → GoalCompletionStatus → Ended
unfolding result update
complete round completion waiting = (
  result round waiting completion.detail none,
  update round "WAITING" none none round.no_progress completion.detail,
)
complete round completion blocked = (
  result round intervention_required completion.detail none,
  update round "INTERVENTION_REQUIRED" none none round.no_progress completion.detail,
)
complete round completion pass = (
  result round goal_completed round.decision.detail none,
  update round "COMPLETED" none none 0 round.decision.detail,
)

intervene : Round → Ended
unfolding result update
intervene round = (
  result round intervention_required round.decision.detail round.current_work_identity,
  update round "INTERVENTION_REQUIRED" round.current_work_identity none round.no_progress
      round.decision.detail,
)

-- On `YIELD_EXTERNAL`.
yield_on : ℕ → Round → Ended
unfolding result update
yield_on limit round =
    if leb limit round.no_progress && round.pending_effect
    then (
      result round intervention_required "PENDING_EFFECT_RECONCILIATION_REQUIRED"
          round.current_work_identity,
      update round "INTERVENTION_REQUIRED" round.current_work_identity round.decision.schedule_key
          round.no_progress "PENDING_EFFECT_RECONCILIATION_REQUIRED",
    )
    else (
      result round waiting round.decision.detail round.current_work_identity,
      update round "WAITING" round.current_work_identity round.decision.schedule_key
          round.no_progress round.decision.detail,
    )

by_disposition : ℕ → GoalCompletionResult → Round → V2SupervisorDisposition → Option Ended
unfolding complete intervene yield_on
by_disposition limit completion round complete_goal =
    some (complete round completion completion.status)
by_disposition limit completion round must_intervene = some (intervene round)
by_disposition limit completion round yield_external = some (yield_on limit round)
by_disposition limit completion round continue = none

-- `_terminal_decision`
unfoldable pub terminal_decision : ℕ → GoalCompletionResult → Round → Option Ended
unfolding by_disposition
terminal_decision limit completion round =
    by_disposition limit completion round round.decision.disposition
