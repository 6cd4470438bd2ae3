-- ===== src/Examples/Runtime.antt =====
-- src/loop_engineering/v2_autonomous_runtime.py on small tables.
use loop_engineering.Prelude.{String, ◌<>◌, true, ◌≡◌, ◌≢◌, refl, none, some, [], ◌∷◌, arith}
use text.Mathlib.TextEquality.{eq_iff}
use loop_engineering.Prelude.{string_eq, nat_eq, option_eq, ◌==◌, any, first, has_nul, size, In}
use loop_engineering.V2Supervisor.{V2Transition, schedule_key, schedule_state, transition_value}
use loop_engineering.Examples.Supervision.{digest, proven, broken, derive_test}
use loop_engineering.V2AutonomousRuntime.{
  AutonomousDispatch, AutonomousRuntimeState, Registration, RuntimeUpdate, dispatch,
  dispatch_record, same_dispatch, may_retry, upsert_dispatch, valid_dispatch, dispatch_literals,
  is_literal, is_nullable_literal, dispatched_schedule_keys, without_dispatched, ensure_runtime,
  insert_runtime, new_runtime, same_goal, get, valid_update,
}
use loop_engineering.V2AutonomousRuntime.Dispatches.{dispatched_withheld, dispatch-final}
use loop_engineering.V2AutonomousRuntime.Runtimes.{ensure_runtime-again}

abbrev item : AutonomousDispatch
item = record {
  schedule_key = "schedule:work-7@INTEGRATE";
  runtime_identity = "runtime";
  work_identity = "work-7";
  transition = "INTEGRATE";
  status = "DISPATCHED";
  detail = "SUPERVISOR_DISPATCH";
}

abbrev failed : AutonomousDispatch
failed = record item { status = "FAILED"; detail = "TIMEOUT" }

abbrev pub completed : AutonomousDispatch
completed = record item { status = "COMPLETED"; detail = "MERGED" }

item_key : item.schedule_key ≡ schedule_key digest "g1" proven V2Transition.integrate
unfolding schedule_key schedule_state transition_value
item_key = refl

-- A dispatch that failed is taken up again.
retry_test : dispatch item (failed ∷ []) ≡ some (item ∷ [], true)
unfolding dispatch valid_dispatch dispatch_literals is_literal upsert_dispatch may_retry
    dispatch_record same_dispatch first has_nul size string_eq nat_eq
retry_test = refl

valid_test : (valid_dispatch item ≡ true) × (dispatch_literals item ≡ true)
unfolding valid_dispatch dispatch_literals is_literal has_nul size string_eq nat_eq
valid_test = (refl, refl)

record_test : dispatch_record item.schedule_key (item ∷ []) ≡ some item
unfolding dispatch_record first string_eq
record_test = refl

dispatched_withheld_example :
    ¬ In proven
      (without_dispatched digest "g1"
        (broken ∷ proven ∷ [])
        (dispatched_schedule_keys "runtime" (item ∷ []))).0
dispatched_withheld_example =
    dispatched_withheld digest "g1" (broken ∷ proven ∷ []) proven V2Transition.integrate item
      (failed ∷ []) (item ∷ []) derive_test.0 item_key refl retry_test

not_retried : (item.status ≢ "WAITING") × (item.status ≢ "FAILED")
not_retried =
    (ground (arith, eq_iff "DISPATCHED" "WAITING"), ground (arith, eq_iff "DISPATCHED" "FAILED"))

dispatch-final_example : dispatch item (item ∷ []) ≡ some (item ∷ [], same_dispatch item item)
dispatch-final_example =
    dispatch-final item item (item ∷ []) valid_test.0 valid_test.1 record_test not_retried.0
      not_retried.1

abbrev pub registration : Registration
registration = record {
  product_key = "product";
  repository_identity = "owner/name";
  goal_definition_identity = "goal";
  goal_revision = "g1";
}

abbrev identity : Registration → String
identity r = "runtime:" <> r.goal_definition_identity

abbrev fresh : AutonomousRuntimeState
fresh = new_runtime "runtime:goal" registration

ensure_test : ensure_runtime identity registration [] ≡ some (fresh ∷ [], fresh)
unfolding ensure_runtime insert_runtime new_runtime get same_goal is_literal has_nul size any first
    string_eq nat_eq
ensure_test = refl

ensure_runtime-again_example :
    (ensure_runtime identity registration (fresh ∷ []) ≡ some (fresh ∷ [], fresh))
    × (fresh.product_key ≡ "product")
    × (fresh.repository ≡ "owner/name")
    × (fresh.goal_revision ≡ "g1")
ensure_runtime-again_example =
    ensure_runtime-again identity registration [] (fresh ∷ []) fresh ensure_test

abbrev wait : RuntimeUpdate
wait = record {
  status = "WAITING";
  current_work_identity = some "work-7";
  schedule_key = none;
  progress_fingerprint = some "progress";
  no_progress_count = 1;
  detail = "NO_ACTIONABLE_WORK";
}

wait_valid : (is_literal "runtime:goal" ≡ true) × (valid_update wait ≡ true)
unfolding valid_update is_nullable_literal is_literal has_nul size string_eq nat_eq
wait_valid = (refl, refl)

wait_row :
    first (λ (r : AutonomousRuntimeState). r.runtime_identity == "runtime:goal") (fresh ∷ [])
    ≡ some fresh
unfolding first new_runtime string_eq
wait_row = refl
