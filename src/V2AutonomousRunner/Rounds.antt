-- ===== src/V2AutonomousRunner/Rounds.antt =====
-- What one iteration of `_run` of src/loop_engineering/v2_autonomous_runner.py leaves.
use mathlib.Core.Path.{subst}
use loop_engineering.Prelude.{
  ℕ, String, Bool, true, false, ◌≡◌, ap, ◌∙◌, ◌⊎◌, inl, inr, Option, none, some, List, [], ◌∷◌,
  ◌++◌, arith,
}
use loop_engineering.Prelude.{◌==◌, string_eq, first}
use loop_engineering.V2Supervisor.{V2WorkObservation, V2SupervisorDecision, V2Transition}
use loop_engineering.V2AutonomousRuntime.{
  AutonomousRuntimeState, RuntimeUpdate, update_runtime, AutonomousDispatch, dispatch,
  update_dispatch, TransitionExecutionStatus, progressed, waiting, failed, intervention_required,
  dispatch_status,
}
use loop_engineering.V2AutonomousRunner.{
  AutonomousRunResult, GoalCompletionResult, Round, Ended, by_disposition, terminal_decision,
}
use loop_engineering.V2AutonomousRunner.Action.{World, Action, chain, return, given, on_dispatches}
use loop_engineering.V2AutonomousRunner.Loop.{
  TransitionExecutionResult, RunnerPorts, planned_for, RoundEnd, ends,
}
use loop_engineering.V2AutonomousRunner.Dispatching.{
  update_of, execute_noted, after_outcome, put_status, dispatched, send_dispatch, with_plan,
  take_up, named,
}
use loop_engineering.V2AutonomousRunner.Recorded.{
  has_key, upsert-has_key, upsert-own, status-has_key, Keeps, chain-some, call-Keeps,
  runtimes-Keeps, on_dispatches-some,
}

pub ended-iteration :
    (limit : ℕ) (completion : GoalCompletionResult) (round : Round) (end : Ended)
    → terminal_decision limit completion round ≡ some end
    → end.0.iterations ≡ round.iteration
unfolding terminal_decision by_disposition
ended-iteration limit completion round end h = ground arith

-- A result is of that iteration.
abbrev pub EndsAt : ℕ → RoundEnd → Type 0
EndsAt iteration e = (r : AutonomousRunResult) → e ≡ ends r → r.iterations ≡ iteration

-- No recorded key is lost, and at most one transition is executed, whose key is recorded.
pub record Ran {W : Type 0} (w v : World W) : Type 0 where
  pub recorded : (key : String) → has_key key w.dispatches ≡ true → has_key key v.dispatches ≡ true
  pub executed :
      (v.executed ≡ w.executed)
      ⊎ ((key : String) × (v.executed ≡ w.executed ++ (key ∷ []))
          × (has_key key v.dispatches ≡ true))

module _ {W : Type 0} where
  pub kept-Ran : (w v : World W) → Keeps w v → Ran w v
  kept-Ran w v k = record { recorded = k.recorded; executed = inl k.executed }

  pub before-Ran : (u v w : World W) → Keeps u v → Ran v w → Ran u w
  before-Ran u v w k r = record {
    recorded = λ key m. r.recorded key (k.recorded key m);
    executed = elim r.executed [
      | inl same ↦ inl (same ∙ k.executed)
      | inr (key, more, there) ↦ inr (key, more ∙ ap (λ l. l ++ (key ∷ [])) k.executed, there)
    ];
  }

  pub after-Ran : (u v w : World W) → Ran u v → Keeps v w → Ran u w
  after-Ran u v w r k = record {
    recorded = λ key m. k.recorded key (r.recorded key m);
    executed = elim r.executed [
      | inl same ↦ inl (k.executed ∙ same)
      | inr (key, more, there) ↦ inr (key, k.executed ∙ more, k.recorded key there)
    ];
  }

  status-Keeps :
      (key status detail : String) (w v : World W) (a : Unit {0})
      → on_dispatches (put_status key status detail) w ≡ some (a, v)
      → Keeps w v
  unfolding put_status update_dispatch
  status-Keeps key status detail w v a h =
      let (rows, stated, moved) = on_dispatches-some (put_status key status detail) w v a h in
      record {
        recorded =
            λ other m. let s = status-has_key key status detail w.dispatches other in ground arith;
        executed = ground arith;
      }

  dispatch-Keeps :
      (item : AutonomousDispatch) (w v : World W) (a : Bool)
      → on_dispatches (dispatch item) w ≡ some (a, v)
      → Keeps w v × (has_key item.schedule_key v.dispatches ≡ true)
  unfolding dispatch
  dispatch-Keeps item w v a h =
      let (rows, stated, moved) = on_dispatches-some (dispatch item) w v a h in
      let own = upsert-own item w.dispatches in
      (
        record {
          recorded = λ key m. let s = upsert-has_key item w.dispatches key m in ground arith;
          executed = ground arith;
        },
        ground arith,
      )

  update_of-Keeps :
      (identity : String) (update : RuntimeUpdate) (w v : World W) (a : AutonomousRuntimeState)
      → update_of identity update w ≡ some (a, v)
      → Keeps w v
  unfolding update_of
  update_of-Keeps identity update w v a h = runtimes-Keeps (update_runtime identity update) w v a h

  -- An update, and what the round comes to after it.
  pub updated-Keeps :
      (identity : String) (update : RuntimeUpdate) (to : AutonomousRuntimeState → RoundEnd)
      (w v : World W) (e : RoundEnd)
      → chain (λ state. return (to state)) (update_of identity update w) ≡ some (e, v)
      → Keeps w v × ((state : AutonomousRuntimeState) × (e ≡ to state))
  updated-Keeps identity update to w v e h =
      let (state, u, stated, moved) =
        chain-some (λ s. return (to s)) (update_of identity update w) h in
      let same : u ≡ v = ground arith in
      (
        subst (Keeps w) same (update_of-Keeps identity update w u state stated),
        (state, ground arith),
      )

  after_outcome-Keeps :
      (round : Round) (work key : String) (done : Bool) (detail : String)
      (status : TransitionExecutionStatus) (w v : World W) (e : RoundEnd)
      → after_outcome round work key done detail status w ≡ some (e, v)
      → Keeps w v × EndsAt round.iteration e
  unfolding after_outcome
  after_outcome-Keeps round work key done detail intervention_required w v e h =
      let (kept, (state, same)) = updated-Keeps _ _ _ w v e h in (kept, λ r q. ground arith)
  after_outcome-Keeps round work key done detail progressed w v e h =
      let (kept, (state, same)) = updated-Keeps _ _ _ w v e h in
      (kept, λ r q. absurd (ground arith))
  after_outcome-Keeps round work key done detail failed w v e h =
      let (kept, (state, same)) = updated-Keeps _ _ _ w v e h in
      (kept, λ r q. absurd (ground arith))
  after_outcome-Keeps round work key done detail waiting w v e h =
      let (kept, (state, same)) = updated-Keeps _ _ _ w v e h in
      (kept, λ r q. absurd (ground arith))

module _ {W P : Type 0} (ports : RunnerPorts W P) where
  executed-Ran :
      (key : String) (work : V2WorkObservation) (planned : P) (d : V2SupervisorDecision)
      (w v : World W) (o : TransitionExecutionResult)
      → has_key key w.dispatches ≡ true
      → execute_noted ports key work planned d w ≡ some (o, v)
      → Ran w v
  unfolding execute_noted
  executed-Ran key work planned d w v o there h =
      let noted = record w { executed = w.executed ++ (key ∷ []) } in
      let k = call-Keeps (ports.execute work planned d) noted v o h in
      record {
        recorded = λ other m. k.recorded other m;
        executed = inr (key, k.executed, k.recorded key there);
      }

  dispatched-Ran :
      (round : Round) (work : V2WorkObservation) (planned : P) (key : String) (done accepted : Bool)
      (w v : World W) (e : RoundEnd)
      → has_key key w.dispatches ≡ true
      → dispatched ports round work planned key done accepted w ≡ some (e, v)
      → Ran w v × EndsAt round.iteration e
  unfolding dispatched
  dispatched-Ran round work planned key done false w v e there h =
      let (kept, (state, same)) = updated-Keeps _ _ _ w v e h in
      (kept-Ran w v kept, λ r q. absurd (ground arith))
  dispatched-Ran round work planned key done true w v e there h =
      let (outcome, u, ran, rest) = chain-some _ _ h in
      let (unit, x, put, rest') = chain-some _ _ rest in
      let (kept, at) =
        after_outcome-Keeps round work.work_identity key done outcome.detail outcome.status x v e
          rest' in
      let put_kept =
        status-Keeps key (dispatch_status outcome.status) outcome.detail u x unit put in
      (
        after-Ran w x v
            (after-Ran w u x (executed-Ran key work planned round.decision w u outcome there ran)
              put_kept)
            kept,
        at,
      )

  -- The value that is given, in the world as it was.
  pub given-chain {ℓ κ} :
      {A : Type ℓ} {B : Type κ} (f : A → Action W B) (o : Option A) (w v : World W) (b : B)
      → chain f (given o w) ≡ some (b, v)
      → (a : A) × (f a w ≡ some (b, v))
  given-chain f none w v b h = absurd (ground arith)
  given-chain f (some a) w v b h = (a, h)

  send_dispatch-Ran :
      (round : Round) (done : Bool) (transition : V2Transition) (key : String)
      (work : V2WorkObservation) (planned : P) (w v : World W) (e : RoundEnd)
      → send_dispatch ports round done transition key work planned w ≡ some (e, v)
      → Ran w v × EndsAt round.iteration e
  unfolding send_dispatch
  send_dispatch-Ran round done transition key work planned w v e h =
      let (accepted, u, sent, rest) = chain-some _ _ h in
      let (kept, there) = dispatch-Keeps _ w u accepted sent in
      let (ran, at) = dispatched-Ran round work planned key done accepted u v e there rest in
      (before-Ran w u v kept ran, at)

  with_plan-Ran :
      (round : Round) (plan : List (ℕ × P)) (done : Bool) (transition : V2Transition) (key : String)
      (work : V2WorkObservation) (w v : World W) (e : RoundEnd)
      → with_plan ports round plan done transition key work w ≡ some (e, v)
      → Ran w v × EndsAt round.iteration e
  unfolding with_plan
  with_plan-Ran round plan done transition key work w v e h =
      let (planned, rest) =
        given-chain (send_dispatch ports round done transition key work)
          (planned_for work.issue_number plan) w v e h in
      send_dispatch-Ran round done transition key work planned w v e rest

  take_up-Ran :
      (round : Round) (works : List V2WorkObservation) (plan : List (ℕ × P)) (done : Bool)
      (identity : String) (transition : V2Transition) (key : String) (w v : World W) (e : RoundEnd)
      → take_up ports round works plan done identity transition key w ≡ some (e, v)
      → Ran w v × EndsAt round.iteration e
  unfolding take_up
  take_up-Ran round works plan done identity transition key w v e h =
      let (work, rest) =
        given-chain (with_plan ports round plan done transition key)
          (first (λ (o : V2WorkObservation). o.work_identity == identity) works) w v e h in
      with_plan-Ran round plan done transition key work w v e rest

  pub named-Ran :
      (round : Round) (works : List V2WorkObservation) (plan : List (ℕ × P)) (done : Bool)
      (identity : Option String) (transition : Option V2Transition) (key : Option String)
      (w v : World W) (e : RoundEnd)
      → named ports round works plan done identity transition key w ≡ some (e, v)
      → Ran w v × EndsAt round.iteration e
  unfolding named
  named-Ran round works plan done (some i) (some t) (some k) w v e h =
      take_up-Ran round works plan done i t k w v e h
  named-Ran round works plan done i t k w v e h = absurd (ground arith)
