-- ===== src/V2AutonomousRunner/Ending.antt =====
-- How a run ends.
use text.Mathlib.TextEquality.{eq_iff}
use loop_engineering.Prelude.{ℕ, String, ◌≡◌, ◌↔◌, none, some, arith}
use loop_engineering.V2Supervisor.{
  V2SupervisorDisposition, continue, complete_goal, V2Request, V2ScheduleState, decide,
}
use loop_engineering.V2Supervisor.Decisions.{IsComplete, complete_goal_iff}
use loop_engineering.V2AutonomousRunner.{
  goal_completed, GoalCompletionResult, pass, Round, Ended, by_disposition, terminal_decision,
}

by_disposition-completed :
    (limit : ℕ) (completion : GoalCompletionResult) (round : Round) (d : V2SupervisorDisposition)
    (ended : Ended)
    → by_disposition limit completion round d ≡ some ended
    → (ended.0.status ≡ goal_completed) ↔ ((d ≡ complete_goal) × (completion.status ≡ pass))
unfolding by_disposition
by_disposition-completed limit completion round d ended h = (λ e. ground arith, λ e. ground arith)

by_disposition-written :
    (limit : ℕ) (completion : GoalCompletionResult) (round : Round) (d : V2SupervisorDisposition)
    (ended : Ended)
    → by_disposition limit completion round d ≡ some ended
    → (ended.1.status ≡ "COMPLETED") ↔ (ended.0.status ≡ goal_completed)
unfolding by_disposition
by_disposition-written limit completion round d ended h = (
  λ e. ground (arith, eq_iff "WAITING" "COMPLETED", eq_iff "INTERVENTION_REQUIRED" "COMPLETED"),
  λ e. ground arith,
)

-- A round goes on to a dispatch exactly when the decision is to continue.
pub terminal_decision-eq-none :
    (limit : ℕ) (completion : GoalCompletionResult) (round : Round)
    → (terminal_decision limit completion round ≡ none) ↔ (round.decision.disposition ≡ continue)
unfolding terminal_decision by_disposition
terminal_decision-eq-none limit completion round = (λ e. ground arith, λ e. ground arith)

-- A round on the supervisor's decision for a request ends as GOAL_COMPLETED exactly when the request
-- is complete, in what the supervisor asks of it, and the goal's finalization passed; whether a lineage is
-- active or a human verification is pending is not among it. The runtime is written COMPLETED exactly when the round
-- ends so.
pub completed_round :
    (digest : V2ScheduleState → String) (r : V2Request)
    → (limit : ℕ) (completion : GoalCompletionResult) (round : Round) (ended : Ended)
    → decide digest r ≡ some round.decision
    → terminal_decision limit completion round ≡ some ended
    → ((ended.0.status ≡ goal_completed) ↔ (IsComplete digest r × (completion.status ≡ pass)))
      × ((ended.1.status ≡ "COMPLETED") ↔ (ended.0.status ≡ goal_completed))
unfolding terminal_decision
completed_round digest r limit completion round ended decided h =
    let done = by_disposition-completed limit completion round round.decision.disposition ended h in
    let goal = complete_goal_iff digest r round.decision decided in
    (
      (λ e. (goal.0 (done.0 e).0, (done.0 e).1), λ p. done.1 (goal.1 p.0, p.1)),
      by_disposition-written limit completion round round.decision.disposition ended h,
    )
