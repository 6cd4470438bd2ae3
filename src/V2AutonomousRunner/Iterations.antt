-- ===== src/V2AutonomousRunner/Iterations.antt =====
-- What one iteration of `_run` of src/loop_engineering/v2_autonomous_runner.py leaves, from its first call on.
use mathlib.Core.Path.{subst}
use loop_engineering.Prelude.{ℕ, String, Bool, ◌≡◌, sym, Option, none, some, List, [], ◌∷◌, arith}
use loop_engineering.Prelude.{string_eq}
use loop_engineering.V2Supervisor.{
  V2WorkObservation, V2SupervisorDecision, V2SupervisorDisposition, continue, complete_goal,
  yield_external, intervention_required as must_intervene, decide,
}
use loop_engineering.V2AutonomousRuntime.{AutonomousRuntimeState, Registration, without_dispatched}
use loop_engineering.V2AutonomousRunner.{
  GoalCompletionResult, pass, Round, Ended, terminal_decision,
}
use loop_engineering.V2AutonomousRunner.Action.{
  put_dispatches, World, Action, chain, return, call, on_dispatches,
}
use loop_engineering.V2AutonomousRunner.Loop.{
  V2WorkQueueSnapshot, RunnerPorts, planned_for, RoundEnd, ends, observe_all, observe_one,
}
use loop_engineering.V2AutonomousRunner.Dispatching.{named, ended}
use loop_engineering.V2AutonomousRunner.Run.{
  no_progress_of, request, supervised, observed, Runner, closing, decided, run_round, keys_of,
}
use loop_engineering.V2AutonomousRunner.Recorded.{
  Keeps, Keeps-refl, Keeps-trans, chain-some, call-Keeps,
}
use loop_engineering.V2AutonomousRunner.Rounds.{
  EndsAt, Ran, kept-Ran, before-Ran, updated-Keeps, ended-iteration, named-Ran, given-chain,
}

module _ {W P : Type 0} (ports : RunnerPorts W P) where
  observe_one-Keeps :
      (work : V2WorkObservation) (o : Option P) (a b : World W) (one : V2WorkObservation)
      → observe_one ports work o a ≡ some (one, b)
      → Keeps a b
  unfolding observe_one
  observe_one-Keeps work none a b one e = subst (Keeps a) (ground arith) (Keeps-refl a)
  observe_one-Keeps work (some planned) a b one e =
      let (lineage, c, first_seen, rest) =
        chain-some (λ l. call (ports.enrich l planned)) (call (ports.observe work planned) a) e in
      Keeps-trans a c b (call-Keeps (ports.observe work planned) a c lineage first_seen)
        (call-Keeps (ports.enrich lineage planned) c b one rest)

  pub observe_all-Keeps :
      (plan : List (ℕ × P)) (works : List V2WorkObservation) (w v : World W)
      (found : List V2WorkObservation)
      → observe_all ports plan works w ≡ some (found, v)
      → Keeps w v
  unfolding observe_all
  observe_all-Keeps plan [] w v found h = subst (Keeps w) (ground arith) (Keeps-refl w)
  observe_all-Keeps plan (work ∷ works) w v found h =
      let (one, u, seen, h1) =
        chain-some (λ one x. chain (λ rest. return (one ∷ rest)) (observe_all ports plan works x))
          (observe_one ports work (planned_for work.issue_number plan) w) h in
      let (rest, x, seen', h2) =
        chain-some (λ rest. return (one ∷ rest)) (observe_all ports plan works u) h1 in
      let same : x ≡ v = ground arith in
      Keeps-trans w u v (observe_one-Keeps work (planned_for work.issue_number plan) w u one seen)
        (subst (Keeps u) same (observe_all-Keeps plan works u x rest seen'))

module _ {W P : Type 0} (runner : Runner W P) (registration : Registration) where
  closing-Keeps :
      (round : Round) (d : V2SupervisorDisposition) (w v : World W) (o : Option Ended)
      → closing runner registration round d w ≡ some (o, v)
      → Keeps w v
        × ((completion : GoalCompletionResult) × (o
              ≡ terminal_decision runner.no_progress_limit completion round))
  unfolding closing
  closing-Keeps round complete_goal w v o h =
      let (completion, u, asked, rest) =
        chain-some (λ c. return (terminal_decision runner.no_progress_limit c round))
          (call runner.ports.finalize w) h in
      let same : u ≡ v = ground arith in
      (
        subst (Keeps w) same (call-Keeps runner.ports.finalize w u completion asked),
        (completion, ground arith),
      )
  closing-Keeps round continue w v o h = (
    subst (Keeps w) (ground arith) (Keeps-refl w),
    (record { status = pass; detail = "NOOP_GOAL_COMPLETION" }, ground arith),
  )
  closing-Keeps round yield_external w v o h = (
    subst (Keeps w) (ground arith) (Keeps-refl w),
    (record { status = pass; detail = "NOOP_GOAL_COMPLETION" }, ground arith),
  )
  closing-Keeps round must_intervene w v o h = (
    subst (Keeps w) (ground arith) (Keeps-refl w),
    (record { status = pass; detail = "NOOP_GOAL_COMPLETION" }, ground arith),
  )

  ended-Ran :
      (round : Round) (completion : GoalCompletionResult) (o : Option Ended) (identity : String)
      (rest : Action W RoundEnd) (w v : World W) (e : RoundEnd)
      → o ≡ terminal_decision runner.no_progress_limit completion round
      → (rest w ≡ some (e, v) → Ran w v × EndsAt round.iteration e)
      → ended o identity rest w ≡ some (e, v)
      → Ran w v × EndsAt round.iteration e
  unfolding ended
  ended-Ran round completion none identity rest w v e q go h = go h
  ended-Ran round completion (some (result, update)) identity rest w v e q go h =
      let (kept, (state, same)) = updated-Keeps identity update (λ s. ends result) w v e h in
      let at = ended-iteration runner.no_progress_limit completion round (result, update) (sym q) in
      (kept-Ran w v kept, λ r p. ground arith)

  module _ (plan : List (ℕ × P)) (iteration : ℕ) (state : AutonomousRuntimeState)
      (done : Bool) where
    decided-Ran :
        (queue : V2WorkQueueSnapshot) (works : List V2WorkObservation) (current : Option String)
        (d : V2SupervisorDecision) (w v : World W) (e : RoundEnd)
        → decided runner registration plan iteration state done queue works current d w
          ≡ some (e, v)
        → Ran w v × EndsAt iteration e
    unfolding decided
    decided-Ran queue works current d w v e h =
        let print = runner.fingerprint registration.goal_revision works queue.pending_effect d in
        let round : Round = record {
          runtime_identity = state.runtime_identity;
          current_work_identity = current;
          decision = d;
          fingerprint = print;
          no_progress = no_progress_of runner registration state print;
          pending_effect = queue.pending_effect;
          iteration = iteration;
        } in
        let go =
          named runner.ports round works plan done d.work_identity d.transition d.schedule_key in
        let (terminal, u, closed, rest) =
          chain-some (λ o. ended o state.runtime_identity go)
            (closing runner registration round d.disposition w) h in
        let (kept, (completion, same)) = closing-Keeps round d.disposition w u terminal closed in
        let (ran, at) =
          ended-Ran round completion terminal state.runtime_identity go u v e same
            (named-Ran runner.ports round works plan done d.work_identity d.transition
              d.schedule_key u v e)
            rest in
        (before-Ran w u v kept ran, at)

    supervised-Ran :
        (queue : V2WorkQueueSnapshot) (works : List V2WorkObservation) (keys : List String)
        (acceptance : Bool) (w v : World W) (e : RoundEnd)
        → supervised runner registration plan iteration state done queue works keys acceptance w
          ≡ some (e, v)
        → Ran w v × EndsAt iteration e
    unfolding supervised
    supervised-Ran queue works keys acceptance w v e h =
        let kept = without_dispatched runner.digest registration.goal_revision works keys in
        let r = request runner registration queue kept acceptance in
        let (d, rest) =
          given-chain runner.ports
            (decided runner registration plan iteration state done queue works
              r.current_work_identity)
            (decide runner.digest r) w v e h in
        decided-Ran queue works r.current_work_identity d w v e rest

    keys-Keeps :
        (w v : World W) (keys : List String)
        → on_dispatches (keys_of runner registration state) w ≡ some (keys, v)
        → Keeps w v
    unfolding keys_of on_dispatches put_dispatches
    keys-Keeps w v keys h = subst (Keeps w) (ground arith) (Keeps-refl w)

    observed-Ran :
        (queue : V2WorkQueueSnapshot) (works : List V2WorkObservation) (w v : World W)
        (e : RoundEnd)
        → observed runner registration plan iteration state done queue works w ≡ some (e, v)
        → Ran w v × EndsAt iteration e
    unfolding observed
    observed-Ran queue works w v e h =
        let (keys, u, read, h1) =
          chain-some
            (λ keys x.
              chain (supervised runner registration plan iteration state done queue works keys)
                (call (runner.ports.accept works) x))
            (on_dispatches (keys_of runner registration state) w) h in
        let (acceptance, x, asked, h2) =
          chain-some (supervised runner registration plan iteration state done queue works keys)
            (call (runner.ports.accept works) u) h1 in
        let (ran, at) = supervised-Ran queue works keys acceptance x v e h2 in
        (
          before-Ran w x v
              (Keeps-trans w u x (keys-Keeps w u keys read)
                (call-Keeps (runner.ports.accept works) u x acceptance asked))
              ran,
          at,
        )

    pub run_round-Ran :
        (w v : World W) (e : RoundEnd)
        → run_round runner registration plan iteration state done w ≡ some (e, v)
        → Ran w v × EndsAt iteration e
    unfolding run_round
    run_round-Ran w v e h =
        let (queue, u, read, h1) =
          chain-some
            (λ queue x.
              chain (observed runner registration plan iteration state done queue)
                (observe_all runner.ports plan queue.works x))
            (call runner.ports.synchronize w) h in
        let (works, x, seen, h2) =
          chain-some (observed runner registration plan iteration state done queue)
            (observe_all runner.ports plan queue.works u) h1 in
        let (ran, at) = observed-Ran queue works x v e h2 in
        (
          before-Ran w x v
              (Keeps-trans w u x (call-Keeps runner.ports.synchronize w u queue read)
                (observe_all-Keeps runner.ports plan queue.works u x works seen))
              ran,
          at,
        )
