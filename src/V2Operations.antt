-- ===== src/V2Operations.antt =====
-- src/loop_engineering/v2_operations.py: `V2MigrationAndIssuanceService`, the migration of an issue and the
-- issue of a packet on the store. `synchronize` is `WorkDefinitionPort.synchronize`. A `WorkStateUnavailable`
-- is answered as BLOCKED with its text, which is no detail here; a target whose number `int` refuses is left
-- out. The field `record` of a definition is `synchronized`.
pub mod Migrated
use mathlib.Core.Option
use Prim.Native.Char.{Char}
use loop_engineering.Prelude.{
  ℕ, String, ◌<>◌, Bool, true, false, ◌&&◌, ◌||◌, not, Option, none, some,
}
use loop_engineering.Prelude.{◌==◌, ◌!=◌, string_eq, nat_eq, if◌then◌else◌, leb, is_empty, decimal}
use loop_engineering.WorkState.{WorkRecord}
use loop_engineering.V2Resume.{
  WorkDefinitionStatus, ready, completed, unavailable, acceptance_criteria_missing,
  closed_before_completion, dependency_pending, WorkDefinitionResult, same_work,
}
use loop_engineering.V2EffectReadback.{Digit}
use loop_engineering.WorkStore.{Store}
use loop_engineering.WorkStore.Plan.{V2PacketPlan}
use loop_engineering.WorkStore.Cutover.{is_cutover, migrate_candidate}
use loop_engineering.WorkStore.Execution.{work_record}
use loop_engineering.WorkStore.Issue.{V2PacketIssueResult, issue_packet as issue_in_store}

pub data V2OperationStatus : Type 0 where
  migrated_packet_required packet_issued packet_already_issued waiting blocked : V2OperationStatus

pub record V2OperationResult : Type 0 where
  pub status : V2OperationStatus
  pub detail : Option String
  pub work_identity : Option String
  pub packet_identity : Option String

abbrev pub answer : V2OperationStatus → String → String → V2OperationResult
answer status detail work = record {
  status = status;
  detail = some detail;
  work_identity = some work;
  packet_identity = none;
}

-- `except WorkStateUnavailable`
abbrev pub refused : String → V2OperationResult
refused work = record {
  status = blocked;
  detail = none;
  work_identity = some work;
  packet_identity = none;
}

-- What was read back after `migrate_candidate`.
unfoldable pub read_back :
    String → WorkRecord → Bool → Option (Option WorkRecord) → Option Bool → V2OperationResult
read_back work synchronized migrated none cutover = refused work
read_back work synchronized migrated recorded none = refused work
read_back work synchronized migrated (some none) (some cutover) =
    if not migrated
    then answer blocked "MIGRATION_TRANSACTION_REJECTED" work
    else answer blocked "MIGRATION_READBACK_MISMATCH" work
read_back work synchronized migrated (some (some recorded)) (some cutover) =
    if not migrated && not cutover
    then answer blocked "MIGRATION_TRANSACTION_REJECTED" work
    else if recorded.issue_revision != synchronized.issue_revision || not cutover
    then answer blocked "MIGRATION_READBACK_MISMATCH" work
    else answer migrated_packet_required "MIGRATION_RECORDED_PACKET_REQUIRED" work

unfoldable pub already_migrated : String → Option Bool → V2OperationResult
already_migrated work none = refused work
already_migrated work (some true) =
    answer migrated_packet_required "MIGRATION_ALREADY_RECORDED" work
already_migrated work (some false) = answer blocked "MIGRATION_WORK_CONFLICT" work

-- `_packet_result`
unfoldable pub packet_result : V2PacketIssueResult → V2OperationResult
packet_result issued = record {
  status = if issued.already_issued then packet_already_issued else packet_issued;
  detail = some (if issued.already_issued then "PACKET_ALREADY_ISSUED" else "PACKET_ISSUED");
  work_identity = some issued.packet.work_identity;
  packet_identity = some issued.packet.identity;
}

unfoldable pub after_issue :
    String → Store → Option (Store × Option V2PacketIssueResult) → Store × V2OperationResult
after_issue work s none = (s, refused work)
after_issue work s (some (t, none)) = (t, answer blocked "PACKET_ISSUE_TRANSACTION_REJECTED" work)
after_issue work s (some (t, some issued)) = (t, packet_result issued)

module _ (repository : String) (synchronize : WorkRecord → WorkDefinitionResult) where
  unfoldable pub candidate : ℕ → WorkRecord
  candidate issue_number = record {
    identity = "work:" <> repository <> ":" <> decimal issue_number;
    repository = repository;
    issue_number = issue_number;
    issue_revision = "migration:pending";
    lifecycle = "PLANNED";
    selected_transition = none;
    active_lineage_identity = none;
    latest_task_packet_identity = none;
    latest_checkpoint_identity = none;
  }

  unfoldable pub after_migration :
      String → WorkRecord → Store → Option (Store × Bool) → Store × V2OperationResult
  after_migration work synchronized s none = (s, refused work)
  after_migration work synchronized s (some (t, migrated)) =
      (t, read_back work synchronized migrated (work_record work t) (is_cutover repository t))

  unfoldable pub migrate_synchronized : WorkRecord → WorkRecord → Store → Store × V2OperationResult
  migrate_synchronized wanted synchronized s =
      if synchronized.identity != wanted.identity
        || synchronized.repository != wanted.repository
        || synchronized.issue_number != wanted.issue_number
        || is_empty synchronized.issue_revision
      then (s, answer blocked "MIGRATION_DEFINITION_CONFLICT" wanted.identity)
      else after_migration wanted.identity synchronized s (migrate_candidate synchronized s)

  unfoldable pub migrate_defined :
      WorkRecord → WorkDefinitionStatus → Option WorkRecord → Store → Store × V2OperationResult
  migrate_defined wanted dependency_pending o s =
      (s, answer waiting "DEPENDENCY_PENDING" wanted.identity)
  migrate_defined wanted closed_before_completion o s =
      (s, answer blocked "WORK_CLOSED_BEFORE_MIGRATION" wanted.identity)
  migrate_defined wanted acceptance_criteria_missing o s =
      (s, answer blocked "ACCEPTANCE_CRITERIA_DIGEST_MISSING" wanted.identity)
  migrate_defined wanted ready (some synchronized) s = migrate_synchronized wanted synchronized s
  migrate_defined wanted status o s =
      (s, answer blocked "MIGRATION_DEFINITION_UNAVAILABLE" wanted.identity)

  -- On the row that is there before.
  unfoldable pub migrate_on :
      WorkRecord → Store → Option (Option WorkRecord) → Store × V2OperationResult
  migrate_on wanted s none = (s, refused wanted.identity)
  migrate_on wanted s (some none) =
      let definition = synchronize wanted in
      migrate_defined wanted definition.status definition.synchronized s
  migrate_on wanted s (some (some existing)) =
      if existing.repository == repository && existing.issue_number == wanted.issue_number
      then (s, already_migrated wanted.identity (is_cutover repository s))
      else (s, answer blocked "MIGRATION_WORK_CONFLICT" wanted.identity)

  -- `migrate_issue`
  unfoldable pub migrate_issue : ℕ → Store → Store × V2OperationResult
  migrate_issue issue_number s =
      if not (leb 1 issue_number)
      then (
        s,
        record {
          status = blocked;
          detail = some "MIGRATION_ISSUE_INVALID";
          work_identity = none;
          packet_identity = none;
        },
      )
      else let wanted = candidate issue_number in
        migrate_on wanted s (work_record wanted.identity s)

  module _ (sha256 : String → String) (digit_of : Char → Digit) where
    unfoldable pub issue_defined :
        WorkRecord
        → ℕ
        → V2PacketPlan
        → String
        → WorkDefinitionStatus
        → Option WorkRecord
        → Store
        → Store × V2OperationResult
    issue_defined current generation plan run dependency_pending o s =
        (s, answer waiting "DEPENDENCY_PENDING" current.identity)
    issue_defined current generation plan run acceptance_criteria_missing o s =
        (s, answer blocked "ACCEPTANCE_CRITERIA_DIGEST_MISSING" current.identity)
    issue_defined current generation plan run ready (some synchronized) s =
        if not (same_work current synchronized)
        then (s, answer blocked "WORK_DEFINITION_CONFLICT" current.identity)
        else after_issue current.identity s
            (issue_in_store sha256 digit_of synchronized generation plan run s)
    issue_defined current generation plan run status o s =
        (s, answer blocked "WORK_DEFINITION_UNAVAILABLE" current.identity)

    unfoldable pub issue_on :
        String
        → ℕ
        → V2PacketPlan
        → String
        → Store
        → Option (Option WorkRecord)
        → Store × V2OperationResult
    issue_on work generation plan run s none = (s, refused work)
    issue_on work generation plan run s (some none) = (s, answer blocked "WORK_NOT_MIGRATED" work)
    issue_on work generation plan run s (some (some current)) =
        let definition = synchronize current in
        if current.repository != repository
        then (s, answer blocked "WORK_NOT_MIGRATED" work)
        else issue_defined current generation plan run definition.status definition.synchronized s

    unfoldable pub issue_cut :
        String → ℕ → V2PacketPlan → String → Store → Option Bool → Store × V2OperationResult
    issue_cut work generation plan run s none = (s, refused work)
    issue_cut work generation plan run s (some false) =
        (s, answer blocked "V2_REPOSITORY_NOT_CUTOVER" work)
    issue_cut work generation plan run s (some true) =
        issue_on work generation plan run s (work_record work s)

    -- `issue_packet`
    unfoldable pub issue_packet :
        String → ℕ → V2PacketPlan → String → Store → Store × V2OperationResult
    issue_packet work generation plan run s =
        issue_cut work generation plan run s (is_cutover repository s)
