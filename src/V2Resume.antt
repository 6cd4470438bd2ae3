-- ===== src/V2Resume.antt =====
-- src/loop_engineering/v2_resume.py: whether a work can be taken up again after a stop. The three
-- ports are `ResumePorts`; what `resume` writes through them is the list of its actions, in order.
-- The field `record` of `RecoveredWork` is `work` here, and that of `WorkDefinitionResult` is
-- `synchronized`. A port that raises ends `resume` with its
-- exception; that is not modelled.
pub mod Readiness
pub mod Recorded
pub mod Outcomes
pub mod Pending
use loop_engineering.Prelude.{
  ℕ, String, Bool, true, false, ◌&&◌, ◌||◌, not, Option, none, some, List, [], ◌∷◌,
}
use loop_engineering.Prelude.{
  ◌==◌, ◌!=◌, string_eq, option_eq, nat_eq, if◌then◌else◌, contains, any, is_nil,
}
use loop_engineering.WorkState.{
  WorkRecord, WorkCheckpoint, WorkTaskPacket, EffectAttempt, RecoveredWork,
}

pub data V2ResumeStatus : Type 0 where
  ready finalize_required completed reconcile_required waiting blocked : V2ResumeStatus

pub data EffectReadbackStatus : Type 0 where
  confirmed no_effect unknown : EffectReadbackStatus

pub record V2ResumeResult : Type 0 where
  pub status : V2ResumeStatus
  pub detail : String
  pub recovered : Option RecoveredWork

pub data WorkDefinitionStatus : Type 0 where
  ready completed unavailable acceptance_criteria_missing : WorkDefinitionStatus
  closed_before_completion dependency_pending : WorkDefinitionStatus

pub record WorkDefinitionResult : Type 0 where
  pub status : WorkDefinitionStatus
  pub synchronized : Option WorkRecord

-- `WorkRecoveryPort.recover`, `WorkDefinitionPort` and `EffectReadbackPort`.
pub record ResumePorts : Type 0 where
  pub recover : String → Option RecoveredWork
  pub synchronize : WorkRecord → WorkDefinitionResult
  pub readback : EffectAttempt → EffectReadbackStatus

-- The writes through `WorkRecoveryPort`.
pub data ResumeAction : Type 0 where
  upsert_work : WorkRecord → ResumeAction
  record_effect_outcome : String → String → ResumeAction

abbrev pub Resumed : Type 0
Resumed = V2ResumeResult × List ResumeAction

abbrev answer : V2ResumeStatus → String → Option RecoveredWork → Resumed
answer status detail recovered =
    (record { status = status; detail = detail; recovered = recovered }, [])

-- `_complete_recovery`
unfoldable pub complete_recovery : RecoveredWork → WorkTaskPacket → WorkCheckpoint → Bool
complete_recovery recovered packet checkpoint =
    recovered.work.latest_task_packet_identity == some packet.identity
    && recovered.work.latest_checkpoint_identity == some checkpoint.identity
    && packet.work_identity == recovered.work.identity
    && checkpoint.work_identity == recovered.work.identity
    && checkpoint.task_packet_identity == some packet.identity

-- `_same_work`
unfoldable pub same_work : WorkRecord → WorkRecord → Bool
same_work before after =
    before.identity == after.identity
    && before.repository == after.repository
    && before.issue_number == after.issue_number
    && before.issue_revision == after.issue_revision

-- The status that is recorded for what was read back.
unfoldable pub outcome_text : EffectReadbackStatus → String
outcome_text confirmed = "CONFIRMED"
outcome_text no_effect = "NO_EFFECT"
outcome_text unknown = "UNCERTAIN"

-- `record_effect_outcome(attempt.idempotency_key, ...)`
abbrev pub outcome : (EffectAttempt → EffectReadbackStatus) → EffectAttempt → ResumeAction
outcome readback attempt =
    record_effect_outcome attempt.idempotency_key (outcome_text (readback attempt))

-- `continue` goes on with the rest; an unknown effect ends the loop.
go_on : EffectReadbackStatus → ResumeAction → List ResumeAction × Bool → List ResumeAction × Bool
go_on unknown action rest = (action ∷ [], false)
go_on _ action rest = (action ∷ rest.0, rest.1)

-- The loop over the pending effects: the outcomes that it records, and whether it ran to its end.
unfoldable pub settle :
    (EffectAttempt → EffectReadbackStatus) → List EffectAttempt → List ResumeAction × Bool
unfolding outcome_text go_on
settle readback [] = ([], true)
settle readback (attempt ∷ rest) =
    go_on (readback attempt) (outcome readback attempt) (settle readback rest)

-- The tests on the packet after the loop.
by_packet : RecoveredWork → WorkTaskPacket → WorkCheckpoint → V2ResumeResult
by_packet recovered packet checkpoint =
    if packet.status == "ISSUED"
    then if checkpoint.checkpoint_kind != "SAFE_POINT"
      then (answer reconcile_required "PACKET_CHECKPOINT_MISMATCH" (some recovered)).0
      else (answer ready "RESUME_READY" (some recovered)).0
    else if packet.status == "STARTED"
    then (answer finalize_required "PACKET_FINALIZATION_REQUIRED" (some recovered)).0
    else if contains ("COMPLETED" ∷ "SUPERSEDED" ∷ []) packet.status
    then (answer waiting "PACKET_TERMINAL" (some recovered)).0
    else if packet.status == "UNCERTAIN"
    then (answer reconcile_required "PACKET_UNCERTAIN" (some recovered)).0
    else (answer reconcile_required "PACKET_STATUS_INVALID" (some recovered)).0

abbrev definition_completed : WorkDefinitionStatus → Bool
definition_completed completed = true
definition_completed _ = false

module _ (ports : ResumePorts) where
  -- From the synchronised definition on.
  settle_work :
      RecoveredWork → WorkTaskPacket → WorkCheckpoint → WorkDefinitionStatus → WorkRecord → Resumed
  unfolding by_packet
  settle_work recovered packet checkpoint status synchronized =
      let (outcomes, done) = settle ports.readback recovered.pending_effects in
      let actions = upsert_work synchronized ∷ outcomes in
      if not done
      then ((answer reconcile_required "EFFECT_READBACK_UNKNOWN" (some recovered)).0, actions)
      else if definition_completed status
      then ((answer completed "WORK_COMPLETED" (some recovered)).0, actions)
      else (by_packet recovered packet checkpoint, actions)

  define_work :
      RecoveredWork
      → WorkTaskPacket
      → WorkCheckpoint
      → WorkDefinitionStatus
      → Option WorkRecord
      → Resumed
  unfolding settle_work
  define_work recovered packet checkpoint dependency_pending o =
      answer waiting "DEPENDENCY_PENDING" (some recovered)
  define_work recovered packet checkpoint closed_before_completion o =
      answer blocked "WORK_CLOSED_BEFORE_COMPLETION" (some recovered)
  define_work recovered packet checkpoint acceptance_criteria_missing o =
      answer blocked "ACCEPTANCE_CRITERIA_DIGEST_MISSING" (some recovered)
  define_work recovered packet checkpoint unavailable o =
      answer blocked "WORK_DEFINITION_UNAVAILABLE" (some recovered)
  define_work recovered packet checkpoint _ none =
      answer blocked "WORK_DEFINITION_UNAVAILABLE" (some recovered)
  define_work recovered packet checkpoint status (some synchronized) =
      if not (same_work recovered.work synchronized)
      then answer blocked "WORK_DEFINITION_CONFLICT" (some recovered)
      else settle_work recovered packet checkpoint status synchronized

  resume_recovered : RecoveredWork → WorkTaskPacket → WorkCheckpoint → Resumed
  unfolding define_work
  resume_recovered recovered packet checkpoint =
      if not (complete_recovery recovered packet checkpoint)
      then answer blocked "WORK_RECOVERY_MISSING" (some recovered)
      else if any (λ a. a.packet_generation != some packet.generation) recovered.pending_effects
      then answer reconcile_required "EFFECT_PACKET_MISMATCH" (some recovered)
      else if not (is_nil recovered.pending_effects) && packet.status != "STARTED"
      then answer reconcile_required "EFFECT_PACKET_STATE_MISMATCH" (some recovered)
      else let definition = ports.synchronize recovered.work in
        define_work recovered packet checkpoint definition.status definition.synchronized

  by_parts : RecoveredWork → Option WorkTaskPacket → Option WorkCheckpoint → Resumed
  unfolding resume_recovered
  by_parts recovered (some packet) (some checkpoint) = resume_recovered recovered packet checkpoint
  by_parts recovered _ _ = answer blocked "WORK_RECOVERY_MISSING" (some recovered)

  resume_from : Option RecoveredWork → Resumed
  unfolding by_parts
  resume_from none = answer blocked "WORK_RECOVERY_MISSING" none
  resume_from (some recovered) = by_parts recovered recovered.task_packet recovered.checkpoint

  -- `V2ResumeCoordinator.resume`
  unfoldable pub resume : String → Resumed
  unfolding resume_from
  resume work_identity = resume_from (ports.recover work_identity)
