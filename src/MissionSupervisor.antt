-- ===== src/MissionSupervisor.antt =====
-- src/loop_engineering/supervisor.py: the decision of one observation epoch. `digest` is `json.dumps`
-- followed by `hashlib.sha256`; the parameters of the health events are those of Health.
pub mod Safety
pub mod Upkeep
use mathlib.Core.Option
use loop_engineering.Models.{LoopHealthEvent}
use loop_engineering.Health.{ImprovementState, plan_improvements}
use loop_engineering.Health.Advance.{advance_health}
use loop_engineering.Prelude.{
  ℕ, String, ◌<>◌, Bool, true, false, not, Option, none, some, List, [], ◌∷◌, ◌++◌, map,
}
use loop_engineering.Prelude.{if◌then◌else◌, is_nil, keep, decimal, prefix, truthy}
use loop_engineering.Models.{
  ConflictKind, RunDisposition, continue, yield_external, intervention_required, mission_complete,
  WorkSnapshot, LineageSnapshot, ObservationEpoch, ResumeCertificate, TaskPacket,
  SupervisorDecision, LoopEngineConfig,
}
use loop_engineering.Reconciliation.{reconcile_global, reconcile_work}
use loop_engineering.Scheduler.{
  ScheduleState, select_work, canonical_lineage, schedule_key, is_duplicate,
}

abbrev lineage_of : ObservationEpoch → Option WorkSnapshot → Option LineageSnapshot
lineage_of epoch none = none
lineage_of epoch (some w) = canonical_lineage epoch w.issue_number

abbrev of_lineage {ℓ} :
    {A : Type ℓ} → Option LineageSnapshot → (LineageSnapshot → Option A) → Option A
of_lineage none f = none
of_lineage (some l) f = f l

abbrev status_of : Option WorkSnapshot → String
status_of none = "実行可能なWorkなし"
status_of (some w) = w.project_status

abbrev pub issue_of : Option WorkSnapshot → Option ℕ
issue_of none = none
issue_of (some w) = some w.issue_number

-- `_certificate`
certificate : ObservationEpoch → Option WorkSnapshot → List ConflictKind → ResumeCertificate
certificate epoch work conflicts =
    let lineage = lineage_of epoch work in
    record {
      gate = if is_nil conflicts then "PASS" else "STOP";
      target_issue = issue_of work;
      canonical_design_refs = map (λ d. d.path) epoch.canonical_designs;
      active_lineage = of_lineage lineage (λ l. some l.identity.stable_id);
      working_branch = of_lineage lineage (λ l. l.branch_ref);
      base_sha = of_lineage lineage (λ l. l.base_sha);
      head_sha = of_lineage lineage (λ l. l.head_sha);
      current_status = status_of work;
      last_verification = map (λ d. d.identity.stable_id) epoch.canonical_designs;
      next_action = if is_nil conflicts then "選択したWorkを実装する" else "競合を再調整する";
      conflicts = conflicts;
      observation_id = epoch.observation_id;
    }

-- `f"base:{lineage.base_sha}" if lineage and lineage.base_sha else "base:none"`
base_of : Option LineageSnapshot → String
base_of none = "base:none"
base_of (some l) = elim l.base_sha [
  | none ↦ "base:none"
  | some sha ↦ if truthy (some sha) then "base:" <> sha else "base:none"
]

-- `_packet`
packet : LoopEngineConfig → ObservationEpoch → WorkSnapshot → String → TaskPacket
unfolding base_of
packet config epoch work key =
    let lineage = canonical_lineage epoch work.issue_number in
    record {
      packet_id = "packet:" <> prefix 16 key;
      schedule_key = key;
      observation_id = epoch.observation_id;
      authority = config.authority_refs ++ (("work:#" <> decimal work.issue_number) ∷ []);
      scope = "開発支援基盤" ∷ "決定論的なMission監督" ∷ [];
      non_goals = "レビューワー通信" ∷ "運用記憶の永続化方式" ∷ "製品実行時の割当" ∷ [];
      exact_target = base_of lineage ∷ [];
      dependencies = "現在の依存関係完了証拠" ∷ [];
      acceptance_checks = "対象試験" ∷ "Ruff" ∷ "厳格Mypy" ∷ "全pytest" ∷ "厳密HEAD CI" ∷ [];
      risk_boundary =
          ("Project #" <> decimal config.project_number <> "だけを変更対象にする")
          ∷ "秘密情報を含めない"
          ∷ ("基幹 `" <> config.trunk_branch <> "` へ直接書き込まない")
          ∷ [];
      active_lineage = of_lineage lineage (λ l. some l.identity.stable_id);
      expected_next_transition = "IMPLEMENT";
    }

decision :
    ObservationEpoch
    → RunDisposition
    → Option ℕ
    → ResumeCertificate
    → Option TaskPacket
    → Bool
    → SupervisorDecision
decision epoch disposition work certificate packet duplicate = record {
  observation_id = epoch.observation_id;
  disposition = disposition;
  selected_work_id = work;
  resume_certificate = certificate;
  task_packet = packet;
  duplicate_suppressed = duplicate;
  health_events = [];
  improvement_candidates = [];
}

-- `replace(epoch, works=eligible)`
unfoldable pub selectable_epoch : ObservationEpoch → ObservationEpoch
selectable_epoch epoch = record epoch {
  works = keep (λ w. is_nil (reconcile_work epoch w.issue_number)) epoch.works;
}

module _ (digest : ScheduleState → String) (config : LoopEngineConfig) where
  decide_work : ObservationEpoch → WorkSnapshot → ResumeCertificate → SupervisorDecision
  unfolding decision packet
  decide_work epoch selected cert =
      let selectable = selectable_epoch epoch in
      let key = schedule_key digest selectable selected "IMPLEMENT" in
      if is_duplicate selectable key
      then decision epoch yield_external (some selected.issue_number) cert none true
      else decision epoch continue (some selected.issue_number) cert
          (some (packet config selectable selected key)) false

  decide_selected : ObservationEpoch → Option WorkSnapshot → SupervisorDecision
  unfolding decide_work certificate
  decide_selected epoch none =
      decision epoch
        (if epoch.mission.root_completion_evidence_complete
          then mission_complete
          else yield_external)
        none (certificate epoch none []) none false
  decide_selected epoch (some selected) =
      decide_work epoch selected (certificate epoch (some selected) [])

  -- `_decide_primary`: with a global conflict no work is selected.
  unfoldable pub decide_primary : ObservationEpoch → SupervisorDecision
  unfolding decide_selected
  decide_primary epoch =
      let conflicts = reconcile_global epoch config in
      if is_nil conflicts
      then decide_selected epoch (select_work (selectable_epoch epoch))
      else decision epoch intervention_required none (certificate epoch none conflicts) none false

-- `MissionSupervisor.decide`: the decision with its health events and planned improvements. `none` is
-- the `ValueError` of a recorded event out of bounds.
module _ (sha256 : String → String) (improvement_digest : ImprovementState → String)
    (date_after : ℕ → String) where
  with_health : ObservationEpoch → SupervisorDecision → List LoopHealthEvent → SupervisorDecision
  with_health epoch d health_events = record d {
    health_events = health_events;
    improvement_candidates =
        plan_improvements sha256 improvement_digest date_after health_events
          epoch.open_improvement_issues epoch.checkpoint_improvement_keys 3;
  }

  module _ (digest : ScheduleState → String) (config : LoopEngineConfig) where
    unfoldable pub decide : ObservationEpoch → Option SupervisorDecision
    unfolding with_health
    decide epoch =
        let d = decide_primary digest config epoch in
        Option.map (with_health epoch d) (
          advance_health sha256 epoch.health_events d.resume_certificate.conflicts d.disposition
            d.duplicate_suppressed d.selected_work_id)
