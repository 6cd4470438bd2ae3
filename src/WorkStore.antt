-- ===== src/WorkStore.antt =====
-- The tables of src/loop_engineering/work_state.py and src/loop_engineering/v2_execution_state.py: each
-- is the list of its rows, in the order in which they were recorded. A statement is what it does to the
-- store; an answer `none` is `WorkStateUnavailable`, or the `ValueError` of `int` on a target, and leaves
-- the store as it was. `now` counts seconds, and is what `now()` gives within a transaction. The database
-- is taken to be up; `confirmed_at`, `revision` and the times of rows are left out, and a reference to
-- a row of another table is taken to hold.
mod Literals
pub mod Records
pub mod Transaction
pub mod Recovery
pub mod Reports
pub mod Plan
pub mod Cutover
pub mod Execution
pub mod Issue
pub mod Start
pub mod Rows
pub mod Issued
pub mod Again
pub mod Leases
pub mod Finalized
pub mod Entitled
pub mod Steps
pub mod Keeping
pub mod Opened
pub mod Begun
pub mod Preserved
pub mod Reached
pub mod Growing
pub mod Effects
pub mod Started
pub mod Continued
pub mod Confirmed
pub mod Completed
pub mod Finalize
unfoldable pub use Literals.*
use loop_engineering.Prelude.{
  ℕ, String, Bool, true, false, ◌&&◌, ◌||◌, not, Option, none, some, List, [], ◌∷◌,
}
use loop_engineering.Prelude.{
  ◌==◌, string_eq, nat_eq, option_eq, if◌then◌else◌, contains, any, first, keep, leb, ltb,
}
use loop_engineering.WorkState.{
  WorkRecord, WorkCheckpoint, WorkTaskPacket, EffectAttempt, RecoveredWork,
}
use loop_engineering.WriteGate.{Mapping}

-- A row of `loop_task_packets`: the packet, and the columns of migration 0007.
pub record PacketRow : Type 0 where
  pub packet : WorkTaskPacket
  pub effect_kind : Option String
  pub effect_target_identity : Option String
  pub effect_idempotency_key : Option String
  pub expected_preconditions : Mapping
  pub expected_effect : Mapping

-- A row of `loop_work_leases`.
pub record LeaseRow : Type 0 where
  pub work_identity : String
  pub holder_identity : String
  pub packet_generation : ℕ
  pub expires_at : ℕ

pub record IssueReportOutboxItem : Type 0 where
  pub identity : String
  pub work_identity : String
  pub report_kind : String
  pub checkpoint_identity : Option String
  pub body : String

-- A row of `loop_issue_report_outbox`.
pub record ReportRow : Type 0 where
  pub item : IssueReportOutboxItem
  pub status : String

pub record Store : Type 0 where
  pub works : List WorkRecord
  pub packets : List PacketRow
  pub checkpoints : List WorkCheckpoint
  pub effects : List EffectAttempt
  pub leases : List LeaseRow
  pub reports : List ReportRow
  pub cutovers : List String
  pub now : ℕ

-- `SELECT ... WHERE identity = ... LIMIT 1` on a table by its primary key.
unfoldable pub find_work : String → List WorkRecord → Option WorkRecord
find_work identity works = first (λ (w : WorkRecord). w.identity == identity) works

unfoldable pub find_packet : String → List PacketRow → Option PacketRow
find_packet identity packets = first (λ (p : PacketRow). p.packet.identity == identity) packets

unfoldable pub find_checkpoint : String → List WorkCheckpoint → Option WorkCheckpoint
find_checkpoint identity checkpoints =
    first (λ (c : WorkCheckpoint). c.identity == identity) checkpoints

-- `status IN ('INTENT_RECORDED', 'UNCERTAIN')`
unfoldable pub is_unresolved : EffectAttempt → Bool
is_unresolved effect = effect.status == "INTENT_RECORDED" || effect.status == "UNCERTAIN"

unfoldable pub is_pending_of : String → EffectAttempt → Bool
unfolding is_unresolved
is_pending_of work effect = effect.work_identity == work && is_unresolved effect

-- `EXISTS (SELECT 1 FROM loop_effect_attempts ...)`, of the unresolved effects of a work.
unfoldable pub has_pending : String → List EffectAttempt → Bool
has_pending work effects = any (is_pending_of work) effects

-- A row with the packet's identity, or with its work and generation.
unfoldable pub clashes : String → String → ℕ → PacketRow → Bool
clashes identity work generation row =
    row.packet.identity == identity
    || (row.packet.work_identity == work && row.packet.generation == generation)

unfoldable pub has_clash : String → String → ℕ → List PacketRow → Bool
has_clash identity work generation packets = any (clashes identity work generation) packets

unfoldable pub has_checkpoint : String → List WorkCheckpoint → Bool
has_checkpoint identity checkpoints =
    any (λ (c : WorkCheckpoint). c.identity == identity) checkpoints

unfoldable pub has_effect : String → List EffectAttempt → Bool
has_effect key effects = any (λ (e : EffectAttempt). e.idempotency_key == key) effects

-- `UPDATE ... WHERE identity = ...` on the works.
unfoldable pub update_works : String → (WorkRecord → WorkRecord) → List WorkRecord → List WorkRecord
update_works identity change [] = []
update_works identity change (w ∷ works) =
    let rest = update_works identity change works in
    if w.identity == identity then change w ∷ rest else w ∷ rest

unfoldable pub update_packets :
    String → (WorkTaskPacket → WorkTaskPacket) → List PacketRow → List PacketRow
update_packets identity change [] = []
update_packets identity change (p ∷ packets) =
    let rest = update_packets identity change packets in
    if p.packet.identity == identity then record p { packet = change p.packet } ∷ rest else p ∷ rest

-- `INSERT INTO loop_work_leases ... ON CONFLICT (work_identity) DO UPDATE ... WHERE ...`: the leases after
-- it, or none where the test fails on the lease that is there.
unfoldable pub acquire : (LeaseRow → Bool) → LeaseRow → List LeaseRow → Option (List LeaseRow)
acquire may_take lease [] = some (lease ∷ [])
acquire may_take lease (l ∷ leases) =
    let rest = acquire may_take lease leases in
    if l.work_identity == lease.work_identity
    then if may_take l then some (lease ∷ leases) else none
    else add_to l rest
  where
    add_to : LeaseRow → Option (List LeaseRow) → Option (List LeaseRow)
    add_to l none = none
    add_to l (some ls) = some (l ∷ ls)
