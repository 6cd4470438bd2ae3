-- ===== src/Examples/Supervision.antt =====
-- src/loop_engineering/v2_supervisor.py on two works, and how a round of the runner ends there.
use loop_engineering.Prelude.{String, ◌<>◌, true, false, ◌≡◌, refl, ◌↔◌, none, some, [], ◌∷◌}
use loop_engineering.Prelude.{string_eq, nat_eq, option_eq, any, all, keep, first, from_keys}
use loop_engineering.Selection.{least}
use loop_engineering.V2Supervisor.{
  EvidenceState, V2WorkObservation, V2SupervisorDecision, V2Request, V2ScheduleState, V2Transition,
  V2SupervisorDisposition, derive_transition, terminal, decide, schedule_key, schedule_state,
  select, has_duplicate_identity, dependency_ready, transition_value,
}
use loop_engineering.V2Supervisor.Transitions.{
  IsReady, IsUnderWay, IsProven, IsBroken, integrate_iff, complete_work_iff, repair_iff,
}
use loop_engineering.V2Supervisor.Decisions.{
  MayDispatch, IsComplete, decide_total, dispatch_safe, dispatch_once, complete_goal_iff,
}
use loop_engineering.V2AutonomousRunner.{
  GoalCompletionResult, GoalCompletionStatus, AutonomousRunStatus, Round, Ended, terminal_decision,
}
use loop_engineering.V2AutonomousRunner.Ending.{completed_round}

abbrev pub digest : V2ScheduleState → String
digest state = state.work_identity <> "@" <> state.transition

-- A work whose evidence has all passed.
abbrev pub proven : V2WorkObservation
proven = record {
  work_identity = "work-7";
  issue_number = 7;
  issue_revision = "r1";
  issue_state = "OPEN";
  lifecycle = "ACTIVE";
  project_status = some "In progress";
  priority = some "P1";
  dependency_states = "CLOSED" ∷ [];
  acceptance_digest = some "criteria";
  selected_transition = some "REVIEW";
  canonical_design_identities = "design" ∷ [];
  active_lineage_identity = some "lineage";
  exact_head_sha = some "abc";
  verification_state = EvidenceState.pass;
  verification_identity = some "v";
  ci_state = EvidenceState.pass;
  ci_identity = some "c";
  review_state = EvidenceState.pass;
  review_identity = some "r";
  human_verification_required = true;
  human_verification_state = EvidenceState.pass;
  human_verification_identity = some "h";
  merged = false;
  unresolved_conflict = false;
  latest_packet_identity = none;
  latest_checkpoint_identity = none;
}

abbrev pub broken : V2WorkObservation
broken = record proven {
  work_identity = "work-3";
  issue_number = 3;
  review_state = EvidenceState.request_changes;
}

abbrev merged : V2WorkObservation
merged = record proven { merged = true; issue_state = "CLOSED" }

abbrev done : V2WorkObservation
done = record merged { lifecycle = "COMPLETED"; project_status = some "Done" }

abbrev request : V2Request
request = record {
  goal_revision = "g1";
  works = broken ∷ proven ∷ [];
  current_work_identity = some "work-7";
  dispatched_schedule_keys = [];
  pending_effect = false;
  goal_acceptance_complete = true;
}

abbrev finished : V2Request
finished = record request { works = done ∷ []; current_work_identity = none }

abbrev go : V2SupervisorDecision
go = record {
  disposition = V2SupervisorDisposition.continue;
  work_identity = some "work-7";
  transition = some V2Transition.integrate;
  schedule_key = some "schedule:work-7@INTEGRATE";
  detail = "ACTIONABLE_WORK_SELECTED";
}

abbrev close : V2SupervisorDecision
close = record {
  disposition = V2SupervisorDisposition.complete_goal;
  work_identity = none;
  transition = none;
  schedule_key = none;
  detail = "GOAL_COMPLETION_EVIDENCE_COMPLETE";
}

pub derive_test :
    (derive_transition proven ≡ some V2Transition.integrate)
    × (derive_transition broken ≡ some V2Transition.repair)
    × (derive_transition merged ≡ some V2Transition.complete_work)
    × (derive_transition done ≡ none)
unfolding derive_transition string_eq option_eq all terminal dependency_ready
derive_test = (refl, refl, refl, refl)

go_decided : decide digest request ≡ some go
unfolding decide select has_duplicate_identity schedule_key schedule_state transition_value
    derive_transition string_eq option_eq nat_eq all any first from_keys dependency_ready terminal
go_decided = refl

close_decided : decide digest finished ≡ some close
unfolding decide select least has_duplicate_identity derive_transition string_eq option_eq nat_eq
    all any keep first from_keys dependency_ready terminal
close_decided = refl

integrate_iff_example : IsUnderWay proven × IsProven proven
integrate_iff_example = (integrate_iff proven).0 derive_test.0

repair_iff_example : IsUnderWay broken × IsBroken broken
repair_iff_example = (repair_iff broken).0 derive_test.1

complete_work_iff_example : IsReady merged × (merged.merged ≡ true) × (terminal merged ≡ false)
complete_work_iff_example = (complete_work_iff merged).0 derive_test.2

decide_total_example : (d : V2SupervisorDecision) × (decide digest request ≡ some d)
decide_total_example = decide_total digest request

dispatch_safe_example : MayDispatch digest request go
dispatch_safe_example = dispatch_safe digest request go go_decided refl

dispatch_once_example :
    decide digest (record request { dispatched_schedule_keys = "schedule:work-7@INTEGRATE" ∷ [] })
    ≡ some (record go {
      disposition = V2SupervisorDisposition.yield_external;
      detail = "DUPLICATE_SCHEDULE_SUPPRESSED";
    })
dispatch_once_example =
    dispatch_once digest request go go_decided "schedule:work-7@INTEGRATE" refl refl

complete_goal_iff_example : IsComplete digest finished
complete_goal_iff_example = (complete_goal_iff digest finished close close_decided).0 refl

abbrev last_round : Round
last_round = record {
  runtime_identity = "runtime";
  current_work_identity = none;
  decision = close;
  fingerprint = "progress";
  no_progress = 0;
  pending_effect = false;
  iteration = 4;
}

abbrev accepted : GoalCompletionResult
accepted = record { status = GoalCompletionStatus.pass; detail = "GOAL_CLOSED" }

abbrev ended : Ended
ended = (
  record {
    status = AutonomousRunStatus.goal_completed;
    detail = "GOAL_COMPLETION_EVIDENCE_COMPLETE";
    iterations = 4;
    runtime_identity = "runtime";
    current_work_identity = none;
  },
  record {
    status = "COMPLETED";
    current_work_identity = none;
    schedule_key = none;
    progress_fingerprint = some "progress";
    no_progress_count = 0;
    detail = "GOAL_COMPLETION_EVIDENCE_COMPLETE";
  },
)

last_round_ends : terminal_decision 3 accepted last_round ≡ some ended
unfolding terminal_decision
last_round_ends = refl

completed_round_example :
    ((ended.0.status ≡ AutonomousRunStatus.goal_completed)
      ↔ (IsComplete digest finished × (accepted.status ≡ GoalCompletionStatus.pass)))
    × ((ended.1.status ≡ "COMPLETED") ↔ (ended.0.status ≡ AutonomousRunStatus.goal_completed))
completed_round_example =
    completed_round digest finished 3 accepted last_round ended close_decided last_round_ends
