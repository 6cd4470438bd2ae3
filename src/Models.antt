-- ===== src/Models.antt =====
-- src/loop_engineering/models.py: the typed contracts of the control plane, and the fields of
-- src/loop_engineering/config.py that the decisions read.
use loop_engineering.Prelude.{ℕ, String, Bool, true, false, ◌&&◌, not, Option, List, [], ◌∷◌}
use loop_engineering.Prelude.{Eq, string_eq, contains}

pub data ConflictKind : Type 0 where
  authority_unavailable project_authority_unavailable canonical_design_unresolved : ConflictKind
  canonical_design_mismatch multiple_active_lineages unknown_lineage : ConflictKind
  base_sha_mismatch head_sha_mismatch unexplained_sha_change : ConflictKind
  checkpoint_live_mismatch mission_checkpoint_stale review_head_mismatch : ConflictKind
  ci_head_mismatch forbidden_project_identity stale_write_gate : ConflictKind
  mutation_effect_mismatch direct_trunk_write_forbidden no_op_mutation_forbidden : ConflictKind
  unknown_write_identity_forbidden : ConflictKind

ConflictKind-discrete : Discrete ConflictKind
ConflictKind-discrete = hlevel

instance unfoldable pub conflict_eq : Eq ConflictKind
unfolding ConflictKind-discrete
conflict_eq = record { dec = ConflictKind-discrete }

pub data RunDisposition : Type 0 where
  continue yield_external intervention_required mission_complete : RunDisposition

pub data LineageClassification : Type 0 where
  canonical superseded validation_only ci_only abandoned unknown : LineageClassification

-- `classification is LineageClassification.CANONICAL`
abbrev pub is_canonical : LineageClassification → Bool
is_canonical canonical = true
is_canonical _ = false

abbrev pub is_unknown : LineageClassification → Bool
is_unknown unknown = true
is_unknown _ = false

pub data LoopHealthKind : Type 0 where
  repeated_failure no_progress manual_intervention manual_operation_repeat : LoopHealthKind
  stale_state_recurrence duplicate_scheduling recovery_repetition : LoopHealthKind

pub data ImprovementSeverity : Type 0 where
  p0 p1 p2 : ImprovementSeverity

pub record SourceIdentity : Type 0 where
  pub source_kind : String
  pub stable_id : String
  pub source_revision : String

pub record MissionSnapshot : Type 0 where
  pub identity : SourceIdentity
  pub current_work_id : Option ℕ
  pub checkpoint_is_stale : Bool
  pub root_completion_evidence_complete : Bool
  pub checkpoint_identity : Option String

pub record WorkSnapshot : Type 0 where
  pub identity : SourceIdentity
  pub issue_number : ℕ
  pub issue_open : Bool
  pub project_status : String
  pub priority : Option String
  pub dependencies_satisfied : Bool
  pub canonical_design_resolved : Bool
  pub actionable : Bool
  pub wait_only : Bool
  pub wait_reason : Option String
  pub checkpoint_matches_live : Bool
  pub dependency_completion_identities : List String
  pub checkpoint_identity : Option String

-- `WorkSnapshot.dependency_ready`
unfoldable pub dependency_ready : WorkSnapshot → Bool
dependency_ready w =
    w.issue_open
    && w.dependencies_satisfied
    && w.canonical_design_resolved
    && not (contains ("Blocked" ∷ "Done" ∷ []) w.project_status)

pub record LineageSnapshot : Type 0 where
  pub identity : SourceIdentity
  pub work_issue : ℕ
  pub classification : LineageClassification
  pub branch_ref : Option String
  pub base_ref : Option String
  pub base_sha : Option String
  pub head_sha : Option String
  pub expected_base_sha : Option String
  pub checkpoint_head_sha : Option String
  pub ci_head_sha : Option String
  pub review_head_sha : Option String
  pub explainable_advance : Bool

pub record CanonicalDesignSnapshot : Type 0 where
  pub identity : SourceIdentity
  pub path : String
  pub expected_blob_sha : String
  pub live_blob_sha : String
  pub authority_owner : ℕ

pub record LoopHealthEvent : Type 0 where
  pub kind : LoopHealthKind
  pub fingerprint : String
  pub occurrence_count : ℕ
  pub affected_work_ids : List ℕ
  pub source_refs : List String
  pub blocked_work_count : ℕ
  pub manual_intervention_required : Bool

pub record ExistingImprovementIssue : Type 0 where
  pub issue_number : ℕ
  pub improvement_key : String
  pub state : String
  pub project_configured : Bool

pub record ImprovementCandidate : Type 0 where
  pub improvement_key : String
  pub kind : LoopHealthKind
  pub severity : ImprovementSeverity
  pub title : String
  pub problem : String
  pub evidence_refs : List String
  pub affected_work_ids : List ℕ
  pub start_date : String
  pub target_date : String

pub record ObservationEpoch : Type 0 where
  pub observation_id : String
  pub repository : String
  pub canonical_trunk_ref : String
  pub canonical_trunk_sha : String
  pub project_number : ℕ
  pub project_available : Bool
  pub authorities_available : Bool
  pub mission : MissionSnapshot
  pub works : List WorkSnapshot
  pub lineages : List LineageSnapshot
  pub canonical_designs : List CanonicalDesignSnapshot
  pub checkpoint_schedule_keys : List String
  pub health_events : List LoopHealthEvent
  pub open_improvement_issues : List ExistingImprovementIssue
  pub checkpoint_improvement_keys : List String

pub record ResumeCertificate : Type 0 where
  pub gate : String
  pub target_issue : Option ℕ
  pub canonical_design_refs : List String
  pub active_lineage : Option String
  pub working_branch : Option String
  pub base_sha : Option String
  pub head_sha : Option String
  pub current_status : String
  pub last_verification : List String
  pub next_action : String
  pub conflicts : List ConflictKind
  pub observation_id : String

pub record TaskPacket : Type 0 where
  pub packet_id : String
  pub schedule_key : String
  pub observation_id : String
  pub authority : List String
  pub scope : List String
  pub non_goals : List String
  pub exact_target : List String
  pub dependencies : List String
  pub acceptance_checks : List String
  pub risk_boundary : List String
  pub active_lineage : Option String
  pub expected_next_transition : String

pub record SupervisorDecision : Type 0 where
  pub observation_id : String
  pub disposition : RunDisposition
  pub selected_work_id : Option ℕ
  pub resume_certificate : ResumeCertificate
  pub task_packet : Option TaskPacket
  pub duplicate_suppressed : Bool
  pub health_events : List LoopHealthEvent
  pub improvement_candidates : List ImprovementCandidate

pub record WriteIntent : Type 0 where
  pub intent_id : String
  pub target_kind : String
  pub target_identity : String
  pub mutation_kind : String
  pub expected_preconditions : List (String × String)
  pub expected_effect : List (String × String)
  pub source_observation_id : String

pub record WriteGateResult : Type 0 where
  pub allowed : Bool
  pub conflict : Option ConflictKind

pub record SelfImprovementConfig : Type 0 where
  pub enabled : Bool
  pub project_number : Option ℕ

pub record LoopEngineConfig : Type 0 where
  pub repository : String
  pub project_number : ℕ
  pub trunk_branch : String
  pub authority_refs : List String
  pub self_improvement : SelfImprovementConfig
