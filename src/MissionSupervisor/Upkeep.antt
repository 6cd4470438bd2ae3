-- ===== src/MissionSupervisor/Upkeep.antt =====
-- What `decide` adds to a decision.
use mathlib.Core.Path.{subst}
use loop_engineering.Prelude.{ℕ, String, ◌≡◌, refl, inl, inr, some, List, arith, Option-cases, In}
use loop_engineering.Models.{
  LoopHealthEvent, ObservationEpoch, SupervisorDecision, LoopEngineConfig,
}
use loop_engineering.Health.{ImprovementState, suppressed_keys}
use loop_engineering.Health.Planning.{IsPlan, plan_improvements-IsPlan}
use loop_engineering.Health.Advance.{advance_health, canonicalized, occurred}
use loop_engineering.Health.Advance.Latest.{IsLatest, Canonical}
use loop_engineering.Health.Advance.Growth.{IsKept, advance_health-IsKept}
use loop_engineering.Scheduler.{ScheduleState}
use loop_engineering.MissionSupervisor.{decide_primary, with_health, decide}

module _ (sha256 : String → String) (improvement_digest : ImprovementState → String)
    (date_after : ℕ → String) where
  module _ (digest : ScheduleState → String) (config : LoopEngineConfig)
      (epoch : ObservationEpoch) where
    abbrev pub primary : SupervisorDecision
    primary = decide_primary digest config epoch

    -- The decision is the primary one, the events have grown by it, and the improvements are a plan for them.
    pub record IsUpkept (d : SupervisorDecision) : Type 0 where
      pub disposition : d.disposition ≡ primary.disposition
      pub work : d.selected_work_id ≡ primary.selected_work_id
      pub packet : d.task_packet ≡ primary.task_packet
      pub before : List LoopHealthEvent
      pub canonical : canonicalized sha256 epoch.health_events ≡ some before
      pub forms : Canonical sha256 epoch.health_events before
      pub kept : (e : LoopHealthEvent) → IsLatest e before → IsKept d.health_events e
      pub added :
          (e : LoopHealthEvent)
          → In e (
              occurred sha256 primary.resume_certificate.conflicts primary.disposition
                primary.duplicate_suppressed primary.selected_work_id)
          → IsKept d.health_events e
      pub planned :
          IsPlan sha256 improvement_digest date_after d.health_events
            (suppressed_keys epoch.open_improvement_issues epoch.checkpoint_improvement_keys)
            3
            d.improvement_candidates

    -- What `decide` returns is the primary decision on the epoch, with every canonical health event before it
    -- that is the last of its kind and fingerprint kept, seen at least as often, and every event that occurred
    -- in it added, and with a plan of at most three improvements for these events.
    pub decide-IsUpkept :
        (d : SupervisorDecision)
        → decide sha256 improvement_digest date_after digest config epoch ≡ some d
        → IsUpkept d
    unfolding decide with_health
    decide-IsUpkept d h =
        elim (Option-cases (
          advance_health sha256 epoch.health_events primary.resume_certificate.conflicts
            primary.disposition primary.duplicate_suppressed primary.selected_work_id)) [
              | inl invalid ↦ absurd (ground arith)
              | inr (events, e) ↦
                  let (before, canonical, forms, kept, added) =
                    advance_health-IsKept sha256 epoch.health_events
                      primary.resume_certificate.conflicts primary.disposition
                      primary.duplicate_suppressed primary.selected_work_id events e in
                  let same : with_health sha256 improvement_digest date_after epoch primary events
                      ≡ d =
                    ground arith in
                  subst IsUpkept same (record {
                    disposition = refl;
                    work = refl;
                    packet = refl;
                    before = before;
                    canonical = canonical;
                    forms = forms;
                    kept = kept;
                    added = added;
                    planned =
                        plan_improvements-IsPlan sha256 improvement_digest date_after events
                          epoch.open_improvement_issues epoch.checkpoint_improvement_keys 3;
                  })
            ]
