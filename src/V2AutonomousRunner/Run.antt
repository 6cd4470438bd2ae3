-- ===== src/V2AutonomousRunner/Run.antt =====
-- src/loop_engineering/v2_autonomous_runner.py: `_run`, its rounds, and its loop over them.
use loop_engineering.Prelude.{
  ℕ, zero, suc, String, Bool, false, ◌&&◌, ◌||◌, not, Option, none, some, List, [],
}
use loop_engineering.Prelude.{◌==◌, string_eq, nat_eq, option_eq, if◌then◌else◌, leb}
use loop_engineering.V2Supervisor.{
  V2SupervisorDisposition, complete_goal, V2WorkObservation, V2Request, V2SupervisorDecision,
  V2ScheduleState, decide,
}
use loop_engineering.V2AutonomousRuntime.{
  AutonomousRuntimeState, Registration, ensure_runtime, Dispatches, dispatched_schedule_keys,
  without_dispatched, current_if_selectable,
}
use loop_engineering.V2AutonomousRunner.{
  goal_completed, progressed as run_progressed, iteration_limit, AutonomousRunResult, pass, Round,
  Ended, terminal_decision,
}
use loop_engineering.V2AutonomousRunner.Action.{
  World, Action, ◌>>=◌, return, given, call, on_runtimes, on_dispatches,
}
use loop_engineering.V2AutonomousRunner.Loop.{
  V2WorkQueueSnapshot, BootstrapResult, RunnerPorts, planned_by_issue, RoundEnd, ends, goes_on,
  observe_all,
}
use loop_engineering.V2AutonomousRunner.Dispatching.{named, ended}

-- What a runner is made with, without the test of `__init__` on its limit; the identity of a runtime, and the
-- texts that are digested.
pub record Runner (W P : Type 0) : Type 0 where
  pub ports : RunnerPorts W P
  pub no_progress_limit : ℕ
  pub digest : V2ScheduleState → String
  pub runtime_identity : Registration → String
  pub fingerprint : String → List V2WorkObservation → Bool → V2SupervisorDecision → String

module _ {W P : Type 0} (runner : Runner W P) (registration : Registration) where
  -- `_terminal_decision`, which asks for the completion of the goal where the goal is to be completed.
  unfoldable pub closing : Round → V2SupervisorDisposition → Action W (Option Ended)
  closing round complete_goal = do
    completion ← call runner.ports.finalize
    return (terminal_decision runner.no_progress_limit completion round)
  closing round _ = return (
      terminal_decision runner.no_progress_limit
        (record { status = pass; detail = "NOOP_GOAL_COMPLETION" }) round)

  -- `no_progress`
  unfoldable pub no_progress_of : AutonomousRuntimeState → String → ℕ
  no_progress_of state fingerprint =
      if state.last_progress_fingerprint == some fingerprint then suc state.no_progress_count else 0

  unfoldable pub keys_of : AutonomousRuntimeState → Dispatches → Option (Dispatches × List String)
  keys_of state rows = some (rows, dispatched_schedule_keys state.runtime_identity rows)

  -- One iteration, on the decision.
  unfoldable pub decided :
      List (ℕ × P)
      → ℕ
      → AutonomousRuntimeState
      → Bool
      → V2WorkQueueSnapshot
      → List V2WorkObservation
      → Option String
      → V2SupervisorDecision
      → Action W RoundEnd
  decided plan iteration state done queue works current decision =
      let fingerprint =
        runner.fingerprint registration.goal_revision works queue.pending_effect decision in
      let round : Round = record {
        runtime_identity = state.runtime_identity;
        current_work_identity = current;
        decision = decision;
        fingerprint = fingerprint;
        no_progress = no_progress_of state fingerprint;
        pending_effect = queue.pending_effect;
        iteration = iteration;
      } in
      do
        terminal ← closing round decision.disposition
        ended terminal state.runtime_identity (
            named runner.ports round works plan done decision.work_identity decision.transition
              decision.schedule_key)

  unfoldable pub request : V2WorkQueueSnapshot → List V2WorkObservation × Bool → Bool → V2Request
  request queue kept acceptance = record {
    goal_revision = registration.goal_revision;
    works = kept.0;
    current_work_identity = current_if_selectable queue.current_work_identity kept.0;
    dispatched_schedule_keys = [];
    pending_effect = queue.pending_effect;
    goal_acceptance_complete = acceptance && not kept.1;
  }

  -- From the supervisor's decision on.
  unfoldable pub supervised :
      List (ℕ × P)
      → ℕ
      → AutonomousRuntimeState
      → Bool
      → V2WorkQueueSnapshot
      → List V2WorkObservation
      → List String
      → Bool
      → Action W RoundEnd
  supervised plan iteration state done queue works keys acceptance =
      let kept = without_dispatched runner.digest registration.goal_revision works keys in
      let r = request queue kept acceptance in
      do
        decision ← given (decide runner.digest r)
        decided plan iteration state done queue works r.current_work_identity decision

  -- From the keys of the dispatches on.
  unfoldable pub observed :
      List (ℕ × P)
      → ℕ
      → AutonomousRuntimeState
      → Bool
      → V2WorkQueueSnapshot
      → List V2WorkObservation
      → Action W RoundEnd
  observed plan iteration state done queue works = do
    keys ← on_dispatches (keys_of state)
    acceptance ← call (runner.ports.accept works)
    supervised plan iteration state done queue works keys acceptance

  -- One iteration of `_run`.
  unfoldable pub run_round : List (ℕ × P) → ℕ → AutonomousRuntimeState → Bool → Action W RoundEnd
  run_round plan iteration state done = do
    queue ← call runner.ports.synchronize
    works ← observe_all runner.ports plan queue.works
    observed plan iteration state done queue works

  -- `return`, or the next iteration.
  unfoldable pub proceed :
      RoundEnd
      → (AutonomousRuntimeState → Bool → Action W AutonomousRunResult)
      → Action W AutonomousRunResult
  proceed (ends result) rest = return result
  proceed (goes_on state done) rest = rest state done

  -- The loop over the iterations, of which `left` are to come.
  unfoldable pub run_from :
      List (ℕ × P) → ℕ → ℕ → ℕ → AutonomousRuntimeState → Bool → Action W AutonomousRunResult
  run_from plan max zero iteration state done = return (record {
    status = if done then run_progressed else iteration_limit;
    detail = "AUTONOMOUS_ITERATION_LIMIT_REACHED";
    iterations = max;
    runtime_identity = state.runtime_identity;
    current_work_identity = state.current_work_identity;
  })
  run_from plan max (suc left) iteration state done = do
    result ← run_round plan iteration state done
    proceed result (run_from plan max left (suc iteration))

  -- The loop, on the works that were planned.
  unfoldable pub run_planned :
      ℕ → AutonomousRuntimeState → BootstrapResult P → Action W AutonomousRunResult
  run_planned max state bootstrap = do
    plan ← given (planned_by_issue bootstrap)
    run_from plan max max 1 state false

  -- `_run` on the runtime that `ensure_runtime` gives.
  unfoldable pub run_runtime : ℕ → AutonomousRuntimeState → Action W AutonomousRunResult
  run_runtime max state =
      if state.status == "COMPLETED"
      then return (record {
        status = goal_completed;
        detail = "GOAL_ALREADY_COMPLETED";
        iterations = 0;
        runtime_identity = state.runtime_identity;
        current_work_identity = none;
      })
      else do bootstrap ← call runner.ports.bootstrap; run_planned max state bootstrap

  -- `_run`
  unfoldable pub run_registered : ℕ → Action W AutonomousRunResult
  run_registered max = do
    state ← on_runtimes (ensure_runtime runner.runtime_identity registration)
    run_runtime max state

-- What `run` comes to: `ValueError`, the result of an exception of `_run`, or that of `_run`.
pub data RunAnswer (W : Type 0) : Type 0 where
  invalid_limit interrupted : RunAnswer W
  answered : AutonomousRunResult → World W → RunAnswer W

unfoldable pub answer_of : {W : Type 0} → Option (AutonomousRunResult × World W) → RunAnswer W
answer_of none = interrupted
answer_of (some (result, w)) = answered result w

-- `V2AutonomousRunner.run`
unfoldable pub run : {W P : Type 0} → Runner W P → Registration → ℕ → World W → RunAnswer W
run runner registration max w =
    if not (leb 1 max) || not (leb max 1000)
    then invalid_limit
    else answer_of (run_registered runner registration max w)
