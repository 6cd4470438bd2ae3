-- ===== src/Examples/Health.antt =====
-- src/loop_engineering/health.py on three events.
use loop_engineering.Prelude.{ℕ, String, ◌<>◌, true, false, ◌≡◌, refl, List, [], ◌∷◌}
use loop_engineering.Prelude.{
  string_eq, nat_eq, keep, sort_by, insert_by, strip_prefix, size, prefix, pair_le,
}
use loop_engineering.Models.{LoopHealthKind, LoopHealthEvent, ExistingImprovementIssue}
use loop_engineering.Health.{
  ImprovementState, suppressed_keys, rank_le, severity_of, threshold, kind_value, durable_identity,
  improvement_key, candidate, plan_from, plan_improvements,
}
use loop_engineering.Health.Planning.{IsPlan, keys_of, plan_improvements-IsPlan}
use mathlib.Core.Option
use loop_engineering.Prelude.{none, some, all, In}
use loop_engineering.Models.{ConflictKind, RunDisposition, ObservationEpoch, SupervisorDecision}
use loop_engineering.Health.Advance.{
  advance_health, canonicalized, canonicalize_event, valid_event, occurred,
}
use loop_engineering.Health.Advance.Latest.{IsLatest, Canonical}
use loop_engineering.Health.Advance.Growth.{IsKept, advance_health-IsKept}
use loop_engineering.MissionSupervisor.{decide}
use loop_engineering.MissionSupervisor.Upkeep.{IsUpkept, decide-IsUpkept}
use loop_engineering.Examples.Mission
use loop_engineering.Examples.Mission.{config, epoch}

abbrev sha256 : String → String
sha256 value = "0123456789abcdef0123456789abcdef"

abbrev digest : ImprovementState → String
digest state = state.kind <> "/" <> state.fingerprint

abbrev date_after : ℕ → String
date_after days = "day"

abbrev event : LoopHealthKind → String → ℕ → LoopHealthEvent
event kind fingerprint occurrences = record {
  kind = kind;
  fingerprint = fingerprint;
  occurrence_count = occurrences;
  affected_work_ids = 7 ∷ [];
  source_refs = "log" ∷ [];
  blocked_work_count = 0;
  manual_intervention_required = false;
}

abbrev events : List LoopHealthEvent
events =
    event LoopHealthKind.duplicate_scheduling "a" 4
    ∷ event LoopHealthKind.repeated_failure "b" 2
    ∷ event LoopHealthKind.no_progress "c" 2
    ∷ []

abbrev issues : List ExistingImprovementIssue
issues =
    record {
      issue_number = 1;
      improvement_key = "NO_PROGRESS/c";
      state = "Open";
      project_configured = false;
    }
    ∷ record {
      issue_number = 2;
      improvement_key = "NO_PROGRESS/d";
      state = "OPEN";
      project_configured = true;
    }
    ∷ []

-- A failure seen twice is below its threshold; the other two are planned, by severity.
keys_test :
    keys_of (plan_improvements sha256 digest date_after events issues [] 3)
    ≡ "NO_PROGRESS/c" ∷ "DUPLICATE_SCHEDULING/a" ∷ []
unfolding plan_improvements plan_from candidate improvement_key suppressed_keys severity_of rank_le
    threshold kind_value durable_identity strip_prefix size prefix sort_by insert_by keep string_eq
    nat_eq pair_le
keys_test = refl

plan_improvements-IsPlan_example :
    IsPlan sha256 digest date_after events
      (suppressed_keys issues [])
      3
      (plan_improvements sha256 digest date_after events issues [] 3)
plan_improvements-IsPlan_example =
    plan_improvements-IsPlan sha256 digest date_after events issues [] 3

abbrev troubled : ObservationEpoch
troubled = record epoch { project_available = false; health_events = events }

after_test :
    (after : List LoopHealthEvent) × (advance_health sha256 events
        (ConflictKind.base_sha_mismatch ∷ [])
        RunDisposition.intervention_required
        false
        none
      ≡ some after)
unfolding advance_health canonicalized canonicalize_event valid_event durable_identity Option.bind
    all size string_eq nat_eq strip_prefix
after_test = (_, refl)

advance_health-IsKept_example :
    (before : List LoopHealthEvent) × (canonicalized sha256 events ≡ some before)
    × Canonical sha256 events before
    × ((e : LoopHealthEvent) → IsLatest e before → IsKept after_test.0 e)
    × ((e : LoopHealthEvent)
        → In e (
            occurred sha256
              (ConflictKind.base_sha_mismatch ∷ [])
              RunDisposition.intervention_required
              false
              none)
        → IsKept after_test.0 e)
advance_health-IsKept_example =
    advance_health-IsKept sha256 events (ConflictKind.base_sha_mismatch ∷ [])
      RunDisposition.intervention_required false none after_test.0 after_test.1

decide_test :
    (d : SupervisorDecision) × (decide sha256 digest date_after Mission.digest config troubled
      ≡ some d)
unfolding decide advance_health canonicalized canonicalize_event valid_event durable_identity
    Option.bind all size string_eq nat_eq strip_prefix
decide_test = (_, refl)

decide-IsUpkept_example :
    IsUpkept sha256 digest date_after Mission.digest config troubled decide_test.0
decide-IsUpkept_example =
    decide-IsUpkept sha256 digest date_after Mission.digest config troubled decide_test.0
      decide_test.1
