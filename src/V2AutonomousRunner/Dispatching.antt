-- ===== src/V2AutonomousRunner/Dispatching.antt =====
-- src/loop_engineering/v2_autonomous_runner.py: what `_run` does with a decision of the supervisor.
use loop_engineering.Prelude.{ℕ, String, Bool, true, false, Option, none, some, List, [], ◌∷◌, ◌++◌}
use loop_engineering.Prelude.{◌==◌, string_eq, nat_eq, option_eq, first}
use loop_engineering.V2Supervisor.{
  V2WorkObservation, V2SupervisorDecision, V2Transition, transition_value,
}
use loop_engineering.V2AutonomousRuntime.{
  AutonomousRuntimeState, RuntimeUpdate, update_runtime, Dispatches, dispatch, update_dispatch,
  TransitionExecutionStatus, progressed, intervention_required, dispatch_status,
}
use loop_engineering.V2AutonomousRunner.{intervention_required as run_intervention, Round, Ended}
use loop_engineering.V2AutonomousRunner.Action.{
  Action, ◌>>=◌, ◌>>◌, return, raise, given, call, on_runtimes, on_dispatches,
}
use loop_engineering.V2AutonomousRunner.Loop.{
  TransitionExecutionResult, RunnerPorts, planned_for, RoundEnd, ends, goes_on,
}

unfoldable pub round_update : String → String → String → Option String → ℕ → String → RuntimeUpdate
round_update status work key fingerprint no_progress detail = record {
  status = status;
  current_work_identity = some work;
  schedule_key = some key;
  progress_fingerprint = fingerprint;
  no_progress_count = no_progress;
  detail = detail;
}

unfoldable pub put_status : String → String → String → Dispatches → Option (Dispatches × Unit {0})
put_status key status detail rows = elim (update_dispatch key status detail rows) [
  | none ↦ none
  | some after ↦ some (after, tt)
]

module _ {W : Type 0} where
  unfoldable pub update_of : String → RuntimeUpdate → Action W AutonomousRuntimeState
  update_of identity update = on_runtimes (update_runtime identity update)

  -- After `update_dispatch`, by the status of the outcome.
  unfoldable pub after_outcome :
      Round → String → String → Bool → String → TransitionExecutionStatus → Action W RoundEnd
  after_outcome round work key done detail intervention_required = do
    state ← update_of round.runtime_identity (
        round_update "INTERVENTION_REQUIRED" work key (some round.fingerprint) round.no_progress
          detail)
    return (
        ends (record {
          status = run_intervention;
          detail = detail;
          iterations = round.iteration;
          runtime_identity = round.runtime_identity;
          current_work_identity = some work;
        }))
  after_outcome round work key done detail progressed = do
    state ← update_of round.runtime_identity (round_update "ACTIVE" work key none 0 detail)
    return (goes_on state true)
  after_outcome round work key done detail _ = do
    state ←
        update_of round.runtime_identity
          (round_update "ACTIVE" work key (some round.fingerprint) round.no_progress detail)
    return (goes_on state done)

  -- A terminal decision is written, and ends the run.
  unfoldable pub ended : Option Ended → String → Action W RoundEnd → Action W RoundEnd
  ended none identity rest = rest
  ended (some (result, update)) identity rest = do
    state ← update_of identity update
    return (ends result)

module _ {W P : Type 0} (ports : RunnerPorts W P) where
  -- `execute`, with its key noted among those executed.
  unfoldable pub execute_noted :
      String → V2WorkObservation → P → V2SupervisorDecision → Action W TransitionExecutionResult
  execute_noted key work planned decision w =
      call (ports.execute work planned decision) (record w { executed = w.executed ++ (key ∷ []) })

  -- After `dispatch`, by whether it was accepted.
  unfoldable pub dispatched :
      Round → V2WorkObservation → P → String → Bool → Bool → Action W RoundEnd
  dispatched round work planned key done false = do
    state ← update_of round.runtime_identity (
        round_update "WAITING" work.work_identity key (some round.fingerprint) round.no_progress
          "DUPLICATE_DISPATCH_SUPPRESSED")
    return (goes_on state done)
  dispatched round work planned key done true = do
    outcome ← execute_noted key work planned round.decision
    on_dispatches (put_status key (dispatch_status outcome.status) outcome.detail)
    after_outcome round work.work_identity key done outcome.detail outcome.status

  -- From `dispatch` on.
  unfoldable pub send_dispatch :
      Round → Bool → V2Transition → String → V2WorkObservation → P → Action W RoundEnd
  send_dispatch round done transition key work planned = do
    accepted ← on_dispatches (
        dispatch (record {
          schedule_key = key;
          runtime_identity = round.runtime_identity;
          work_identity = work.work_identity;
          transition = transition_value transition;
          status = "DISPATCHED";
          detail = "SUPERVISOR_DISPATCH";
        }))
    dispatched round work planned key done accepted

  -- `planned.get(work.issue_number)`
  unfoldable pub with_plan :
      Round → List (ℕ × P) → Bool → V2Transition → String → V2WorkObservation → Action W RoundEnd
  with_plan round plan done transition key work = do
    planned ← given (planned_for work.issue_number plan)
    send_dispatch round done transition key work planned

  -- A decision to go on, with the work, transition and key that it names.
  unfoldable pub take_up :
      Round
      → List V2WorkObservation
      → List (ℕ × P)
      → Bool
      → String
      → V2Transition
      → String
      → Action W RoundEnd
  take_up round works plan done identity transition key = do
    work ← given (first (λ (v : V2WorkObservation). v.work_identity == identity) works)
    with_plan round plan done transition key work

  unfoldable pub named :
      Round
      → List V2WorkObservation
      → List (ℕ × P)
      → Bool
      → Option String
      → Option V2Transition
      → Option String
      → Action W RoundEnd
  named round works plan done (some identity) (some transition) (some key) =
      take_up round works plan done identity transition key
  named round works plan done identity transition key = raise
