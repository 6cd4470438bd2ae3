-- ===== src/Examples/Run.antt =====
-- src/loop_engineering/v2_autonomous_runner.py: a run of one iteration, which executes one transition.
use loop_engineering.Prelude.{ℕ, suc, String, true, false, ◌≡◌, refl, none, some, [], ◌∷◌, ◌≤◌}
use loop_engineering.Prelude.{In, length}
use loop_engineering.V2AutonomousRuntime.{AutonomousRuntimeState, progressed}
use loop_engineering.V2AutonomousRunner.{AutonomousRunStatus, AutonomousRunResult, pass}
use loop_engineering.V2AutonomousRunner.Action.{World}
use loop_engineering.V2AutonomousRunner.Loop.{RunnerPorts}
use loop_engineering.V2AutonomousRunner.Run.{Runner, run, answered}
use loop_engineering.V2AutonomousRunner.Recorded.{has_key}
use loop_engineering.V2AutonomousRunner.Bounded.{run-bounded}
use loop_engineering.Examples.Supervision.{digest, proven}
use loop_engineering.Examples.Runtime.{registration, completed}
use loop_engineering.Selection.{least}
use loop_engineering.Prelude.{
  min_from, any, all, first, keep, size, has_nul, string_eq, nat_eq, option_eq, from_keys,
}
use loop_engineering.V2Supervisor.{
  decide, select, has_duplicate_identity, dependency_ready, terminal, derive_transition,
  schedule_key, schedule_state, transition_value,
}
use loop_engineering.V2AutonomousRuntime.{
  ensure_runtime, is_literal, is_nullable_literal, insert_runtime, get, new_runtime, same_goal,
  update_runtime, update_rows, updated, valid_update, dispatched_schedule_keys, without_dispatched,
  was_dispatched, current_if_selectable, dispatch, valid_dispatch, dispatch_literals,
  dispatch_record, upsert_dispatch, same_dispatch, dispatch_status, update_dispatch,
}
use loop_engineering.V2AutonomousRunner.{terminal_decision}
use loop_engineering.V2AutonomousRunner.Action.{
  call, put_outside, on_runtimes, put_runtimes, on_dispatches, put_dispatches,
}
use loop_engineering.V2AutonomousRunner.Loop.{
  observe_all, observe_one, planned_for, planned_by_issue, plan_issues, last_of, logical_keys,
}
use loop_engineering.V2AutonomousRunner.Dispatching.{
  named, take_up, with_plan, send_dispatch, dispatched, execute_noted, put_status, update_of,
  round_update, after_outcome, ended,
}
use loop_engineering.V2AutonomousRunner.Run.{
  answer_of, run_registered, run_runtime, run_planned, run_from, proceed, run_round, observed,
  supervised, request, decided, closing, no_progress_of, keys_of,
}

-- The world counts the transitions that it has executed.
abbrev ports : RunnerPorts ℕ String
ports = record {
  bootstrap = λ n.
      some
        (record { proposal = ("login", "the login work") ∷ []; projection = ("login", 7) ∷ [] }, n);
  synchronize = λ n.
      some
        (record { works = proven ∷ []; current_work_identity = none; pending_effect = false }, n);
  observe = λ work planned n. some (work, n);
  enrich = λ work planned n. some (work, n);
  accept = λ works n. some (false, n);
  finalize = λ n. some (record { status = pass; detail = "DONE" }, n);
  execute =
      λ work planned decision n. some (record { status = progressed; detail = "MERGED" }, suc n);
}

abbrev runner : Runner ℕ String
runner = record {
  ports = ports;
  no_progress_limit = 3;
  digest = digest;
  runtime_identity = λ r. "runtime";
  fingerprint = λ goal works pending decision. "progress:1";
}

abbrev before : World ℕ
before = record { outside = 0; runtimes = []; dispatches = []; executed = [] }

abbrev row : AutonomousRuntimeState
row = record {
  runtime_identity = "runtime";
  product_key = registration.product_key;
  repository = registration.repository_identity;
  goal_revision = registration.goal_revision;
  status = "ACTIVE";
  current_work_identity = some "work-7";
  last_schedule_key = some "schedule:work-7@INTEGRATE";
  last_progress_fingerprint = none;
  no_progress_count = 0;
  last_detail = "MERGED";
}

abbrev after : World ℕ
after = record {
  outside = 1;
  runtimes = row ∷ [];
  dispatches = completed ∷ [];
  executed = "schedule:work-7@INTEGRATE" ∷ [];
}

abbrev result : AutonomousRunResult
result = record {
  status = AutonomousRunStatus.progressed;
  detail = "AUTONOMOUS_ITERATION_LIMIT_REACHED";
  iterations = 1;
  runtime_identity = "runtime";
  current_work_identity = some "work-7";
}

runs : run runner registration 1 before ≡ answered result after
unfolding run answer_of run_registered on_runtimes put_runtimes ensure_runtime is_literal has_nul
    nat_eq size insert_runtime any get first string_eq new_runtime same_goal run_runtime run_planned
    run_from proceed run_round observed supervised request decided closing no_progress_of keys_of
    call put_outside on_dispatches put_dispatches observe_all observe_one planned_for
    planned_by_issue plan_issues last_of logical_keys from_keys is_nullable_literal
    dispatched_schedule_keys without_dispatched was_dispatched keep current_if_selectable decide
    select has_duplicate_identity dependency_ready terminal derive_transition schedule_key
    schedule_state transition_value terminal_decision named take_up with_plan send_dispatch
    dispatched execute_noted put_status update_of round_update after_outcome ended update_dispatch
    dispatch valid_dispatch dispatch_literals dispatch_record upsert_dispatch same_dispatch
    dispatch_status update_runtime update_rows updated valid_update option_eq all least min_from
runs = refl

run-bounded_example :
    (1 ≤ 1000)
    × (result.iterations ≤ 1)
    × (length after.executed ≤ 1)
    × ((key : String) → In key after.executed → has_key key after.dispatches ≡ true)
run-bounded_example = run-bounded runner registration 1 before after result runs refl
