-- ===== src/V2AutonomousRunner/Bounded.antt =====
-- What a run of src/loop_engineering/v2_autonomous_runner.py leaves.
use mathlib.Core.Path.{subst}
use loop_engineering.Prelude.{
  ℕ, zero, suc, String, Bool, true, false, ◌≡◌, refl, sym, ap, ◌⊎◌, inl, inr, ◌≤◌, ◌+◌, Option,
  none, some, List, [], ◌∷◌, ◌++◌, arith,
}
use loop_engineering.Prelude.{◌==◌, string_eq, length, In, here, there, leb→le, Bool-cases}
use loop_engineering.V2AutonomousRuntime.{AutonomousRuntimeState, Registration, ensure_runtime}
use loop_engineering.V2AutonomousRunner.{AutonomousRunResult}
use loop_engineering.V2AutonomousRunner.Action.{World, call, on_runtimes}
use loop_engineering.V2AutonomousRunner.Loop.{
  BootstrapResult, planned_by_issue, RoundEnd, ends, goes_on,
}
use loop_engineering.V2AutonomousRunner.Recorded.{
  has_key, Keeps, chain-some, call-Keeps, runtimes-Keeps,
}
use loop_engineering.V2AutonomousRunner.Rounds.{EndsAt, Ran, given-chain}
use loop_engineering.V2AutonomousRunner.Iterations.{run_round-Ran}
use loop_engineering.V2AutonomousRunner.Run.{
  Runner, proceed, run_round, run_from, run_planned, run_runtime, run_registered, answer_of, run,
  answered,
}

-- Every transition that was executed has its dispatch in the table.
abbrev pub AreRecorded : {W : Type 0} → World W → Type 0
AreRecorded w = (key : String) → In key w.executed → has_key key w.dispatches ≡ true

-- At most so many more transitions are executed.
pub record Runs {W : Type 0} (left max : ℕ) (w v : World W) (r : AutonomousRunResult) : Type 0 where
  pub iterations : r.iterations ≤ max
  pub executed : length v.executed ≤ length w.executed + left
  pub recorded : AreRecorded w → AreRecorded v

length-append {ℓ} : {A : Type ℓ} (xs : List A) (x : A) → length (xs ++ (x ∷ [])) ≡ suc (length xs)
length-append [] x = refl
length-append (y ∷ xs) x = ap suc (length-append xs x)

append-In {ℓ} : {A : Type ℓ} (xs : List A) (x y : A) → In y (xs ++ (x ∷ [])) → In y xs ⊎ (y ≡ x)
append-In [] x y (here e) = inr e
append-In [] x y (there m) = elim m [ ]
append-In (z ∷ xs) x y (here e) = inl (here e)
append-In (z ∷ xs) x y (there m) = elim (append-In xs x y m) [
  | inl l ↦ inl (there l)
  | inr e ↦ inr e
]

module _ {W : Type 0} (w v : World W) where
  Ran-length : Ran w v → length v.executed ≤ suc (length w.executed)
  Ran-length r = elim r.executed [
    | inl same ↦ let e = ap length same in ground arith
    | inr (key, more, known) ↦
        let e = ap length more in let l = length-append w.executed key in ground arith
  ]

  Ran-AreRecorded : Ran w v → AreRecorded w → AreRecorded v
  Ran-AreRecorded r all key m = elim r.executed [
    | inl same ↦ r.recorded key (all key (subst (In key) same m))
    | inr (own, more, known) ↦ elim (append-In w.executed own key (subst (In key) more m)) [
      | inl old ↦ r.recorded key (all key old)
      | inr e ↦ subst (λ k. has_key k v.dispatches ≡ true) (sym e) known
    ]
  ]

  Keeps-AreRecorded : Keeps w v → AreRecorded w → AreRecorded v
  Keeps-AreRecorded k all key m = k.recorded key (all key (subst (In key) k.executed m))

module _ {W P : Type 0} (runner : Runner W P) (registration : Registration) where
  run_from-Runs :
      (plan : List (ℕ × P)) (max left iteration : ℕ) (state : AutonomousRuntimeState) (done : Bool)
      (w v : World W) (r : AutonomousRunResult)
      → iteration + left ≡ suc max
      → run_from runner registration plan max left iteration state done w ≡ some (r, v)
      → Runs left max w v r
  unfolding run_from proceed
  run_from-Runs plan max zero iteration state done w v r count h = record {
    iterations = ground arith;
    executed = ground arith;
    recorded = λ all. let same : w ≡ v = ground arith in subst AreRecorded same all;
  }
  run_from-Runs plan max (suc left) iteration state done w v r count h =
      let (e, u, went, rest) =
        chain-some
          (λ o.
            proceed runner registration o
              (run_from runner registration plan max left (suc iteration)))
          (run_round runner registration plan iteration state done w) h in
      let (ran, at) = run_round-Ran runner registration plan iteration state done w u e went in
      by_end e u ran at rest (λ next more go.
        run_from-Runs plan max left (suc iteration) next more u v r (ground arith) go)
    where
      by_end :
          (e : RoundEnd) (u : World W)
          → Ran w u
          → EndsAt iteration e
          → proceed runner registration e
              (run_from runner registration plan max left (suc iteration))
              u
            ≡ some (r, v)
          → ((next : AutonomousRuntimeState) (more : Bool)
              → run_from runner registration plan max left (suc iteration) next more u ≡ some (r, v)
              → Runs left max u v r)
          → Runs (suc left) max w v r
      by_end (ends result) u ran at rest later =
          let same : u ≡ v = ground arith in
          let of_round : result.iterations ≡ iteration = at result refl in
          let bound = Ran-length w u ran in
          record {
            iterations = ground arith;
            executed = ground arith;
            recorded = λ all. subst AreRecorded same (Ran-AreRecorded w u ran all);
          }
      by_end (goes_on next more) u ran at rest later =
          let tail = later next more rest in
          let bound = Ran-length w u ran in
          let one = tail.iterations in
          let two = tail.executed in
          record {
            iterations = ground arith;
            executed = ground arith;
            recorded = λ all. tail.recorded (Ran-AreRecorded w u ran all);
          }

  after-Runs :
      (max : ℕ) (w u v : World W) (r : AutonomousRunResult)
      → Keeps w u
      → Runs max max u v r
      → Runs max max w v r
  after-Runs max w u v r kept runs =
      let a = runs.iterations in
      let b = runs.executed in
      let c = ap length kept.executed in
      record {
        iterations = a;
        executed = ground arith;
        recorded = λ all. runs.recorded (Keeps-AreRecorded w u kept all);
      }

  run_planned-Runs :
      (max : ℕ) (state : AutonomousRuntimeState) (b : BootstrapResult P) (w v : World W)
      (r : AutonomousRunResult)
      → run_planned runner registration max state b w ≡ some (r, v)
      → Runs max max w v r
  unfolding run_planned
  run_planned-Runs max state b w v r h =
      let (plan, rest) =
        given-chain runner.ports (λ plan. run_from runner registration plan max max 1 state false)
          (planned_by_issue b) w v r h in
      run_from-Runs plan max max 1 state false w v r (omega arith) rest

  run_runtime-Runs :
      (max : ℕ) (state : AutonomousRuntimeState) (w v : World W) (r : AutonomousRunResult)
      → run_runtime runner registration max state w ≡ some (r, v)
      → Runs max max w v r
  unfolding run_runtime
  run_runtime-Runs max state w v r h = elim (Bool-cases (state.status == "COMPLETED")) [
    | inl completed ↦
        let same : w ≡ v = ground arith in
        record {
          iterations = ground arith;
          executed = ground arith;
          recorded = λ all. subst AreRecorded same all;
        }
    | inr other ↦
        let (b, u, read, rest) =
          chain-some (run_planned runner registration max state) (call runner.ports.bootstrap w)
            (ground arith) in
        after-Runs max w u v r (call-Keeps runner.ports.bootstrap w u b read)
          (run_planned-Runs max state b u v r rest)
  ]

  registered-Runs :
      (max : ℕ) (w v : World W) (r : AutonomousRunResult)
      → run_registered runner registration max w ≡ some (r, v)
      → Runs max max w v r
  unfolding run_registered
  registered-Runs max w v r h =
      let (state, u, ensured, rest) =
        chain-some (run_runtime runner registration max)
          (on_runtimes (ensure_runtime runner.runtime_identity registration) w) h in
      after-Runs max w u v r
        (runtimes-Keeps (ensure_runtime runner.runtime_identity registration) w u state ensured)
        (run_runtime-Runs max state u v r rest)

  answer-some :
      (o : Option (AutonomousRunResult × World W)) (r : AutonomousRunResult) (v : World W)
      → answer_of o ≡ answered r v
      → o ≡ some (r, v)
  unfolding answer_of
  answer-some none r v h = absurd (ground arith)
  answer-some (some (q, u)) r v h = ground arith

  -- A run that starts with no transition noted as executed, and that answers with a result of `_run`, has
  -- taken no more iterations than its limit, which is at most 1000; it has executed no more transitions than
  -- that, and the dispatch of each of them is in the table after it.
  pub run-bounded :
      (max : ℕ) (w v : World W) (r : AutonomousRunResult)
      → run runner registration max w ≡ answered r v
      → w.executed ≡ []
      → (max ≤ 1000)
        × (r.iterations ≤ max)
        × (length v.executed ≤ max)
        × ((key : String) → In key v.executed → has_key key v.dispatches ≡ true)
  unfolding run
  run-bounded max w v r h fresh =
      let o = run_registered runner registration max w in
      let runs = registered-Runs max w v r (answer-some o r v (ground arith)) in
      let steps = runs.executed in
      let none_yet = ap length fresh in
      (
        leb→le max 1000 (ground arith),
        runs.iterations,
        ground arith,
        runs.recorded (λ key m. absurd (none_in key (subst (In key) fresh m))),
      )
    where
      none_in : (key : String) → In key [] → ⊥
      none_in key m = elim m [ ]
