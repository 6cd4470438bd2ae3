-- ===== src/V2AutonomousRunner/Loop.antt =====
-- src/loop_engineering/v2_autonomous_runner.py: `run` and `_run`. `RunnerPorts` are the calls of what is
-- outside, `P` is a planned work; `fingerprint` is `json.dumps` followed by `hashlib.sha256`. An exception
-- of `_run` is what `run` answers as INTERVENTION_REQUIRED with its text: no answer here.
use loop_engineering.Prelude.{ℕ, String, Bool, true, Option, none, some, List, [], ◌∷◌, ◌++◌}
use loop_engineering.Prelude.{
  ◌==◌, string_eq, nat_eq, option_eq, if◌then◌else◌, from_keys, length, is_some,
}
use loop_engineering.V2Supervisor.{V2WorkObservation, V2SupervisorDecision}
use loop_engineering.V2AutonomousRuntime.{AutonomousRuntimeState, TransitionExecutionStatus}
use loop_engineering.V2AutonomousRunner.{AutonomousRunResult, GoalCompletionResult}
use loop_engineering.V2AutonomousRunner.Action.{Action, ◌>>=◌, return, call}

-- `V2WorkQueueSnapshot`
pub record V2WorkQueueSnapshot : Type 0 where
  pub works : List V2WorkObservation
  pub current_work_identity : Option String
  pub pending_effect : Bool

pub record TransitionExecutionResult : Type 0 where
  pub status : TransitionExecutionStatus
  pub detail : String

-- The works of `BootstrapResult`: those of the proposal, by logical key, and the projected issues.
pub record BootstrapResult (P : Type 0) : Type 0 where
  pub proposal : List (String × P)
  pub projection : List (String × ℕ)

pub record RunnerPorts (W P : Type 0) : Type 0 where
  pub bootstrap : W → Option (BootstrapResult P × W)
  pub synchronize : W → Option (V2WorkQueueSnapshot × W)
  pub observe : V2WorkObservation → P → W → Option (V2WorkObservation × W)
  pub enrich : V2WorkObservation → P → W → Option (V2WorkObservation × W)
  pub accept : List V2WorkObservation → W → Option (Bool × W)
  pub finalize : W → Option (GoalCompletionResult × W)
  pub execute :
      V2WorkObservation → P → V2SupervisorDecision → W → Option (TransitionExecutionResult × W)

-- `{work.logical_key: work for ...}.get(key)`: the last of a key.
unfoldable pub last_of {ℓ} : {P : Type ℓ} → String → List (String × P) → Option P
last_of key [] = none
last_of key ((k, p) ∷ items) = elim (last_of key items) [
  | some later ↦ some later
  | none ↦ if k == key then some p else none
]

unfoldable pub planned_for {ℓ} : {P : Type ℓ} → ℕ → List (ℕ × P) → Option P
planned_for number [] = none
planned_for number ((n, p) ∷ items) = if n == number then some p else planned_for number items

unfoldable pub logical_keys {ℓ} : {P : Type ℓ} → List (String × P) → List String
logical_keys [] = []
logical_keys ((key, p) ∷ items) = key ∷ logical_keys items

-- The loop of `_planned_by_issue`.
unfoldable pub plan_issues {ℓ} :
    {P : Type ℓ} → List (String × P) → List (String × ℕ) → List (ℕ × P) → Option (List (ℕ × P))
plan_issues proposal [] plan = some plan
plan_issues proposal ((key, number) ∷ projected) plan = elim (last_of key proposal) [
  | none ↦ none
  | some p ↦
      if is_some (planned_for number plan)
      then none
      else plan_issues proposal projected (plan ++ ((number, p) ∷ []))
]

full_plan {ℓ} : {P : Type ℓ} → List (String × P) → Option (List (ℕ × P)) → Option (List (ℕ × P))
full_plan proposal none = none
full_plan proposal (some plan) =
    if length plan == length (from_keys (logical_keys proposal)) then some plan else none

-- `_planned_by_issue`
unfoldable pub planned_by_issue : {P : Type 0} → BootstrapResult P → Option (List (ℕ × P))
unfolding full_plan
planned_by_issue b = full_plan b.proposal (plan_issues b.proposal b.projection [])

-- What a round leaves: the result of the run, or the runtime and whether a transition has progressed.
pub data RoundEnd : Type 0 where
  ends : AutonomousRunResult → RoundEnd
  goes_on : AutonomousRuntimeState → Bool → RoundEnd

module _ {W P : Type 0} (ports : RunnerPorts W P) where
  unfoldable pub observe_one : V2WorkObservation → Option P → Action W V2WorkObservation
  observe_one work none = return (record work { unresolved_conflict = true })
  observe_one work (some planned) = do
    lineage ← call (ports.observe work planned)
    call (ports.enrich lineage planned)

  -- `_observe_all`
  unfoldable pub observe_all :
      List (ℕ × P) → List V2WorkObservation → Action W (List V2WorkObservation)
  observe_all planned [] = return []
  observe_all planned (work ∷ works) = do
    one ← observe_one work (planned_for work.issue_number planned)
    rest ← observe_all planned works
    return (one ∷ rest)
