-- ===== src/WorkStore/Start.antt =====
-- src/loop_engineering/v2_execution_state.py: `start_packet`, which takes the lease of the work and records the
-- intent of the effect of its packet, in one statement.
use Prim.Native.Char.{Char}
use loop_engineering.Prelude.{
  ℕ, String, Bool, false, ◌+◌, ◌&&◌, ◌||◌, not, Option, none, some, List, [], ◌∷◌, ◌++◌,
}
use loop_engineering.Prelude.{◌==◌, string_eq, nat_eq, option_eq, if◌then◌else◌, leb, is_empty}
use loop_engineering.WorkState.{WorkRecord, WorkCheckpoint, WorkTaskPacket, EffectAttempt}
use loop_engineering.V2EffectReadback.{Digit, same_items}
use loop_engineering.WorkStore.{
  is_literal, PacketRow, LeaseRow, Store, find_work, find_packet, find_checkpoint, has_pending,
  has_checkpoint, has_effect, update_works, update_packets, acquire,
}
use loop_engineering.WorkStore.Recovery.{by_identity}
use loop_engineering.WorkStore.Transaction.{is_expired}
use loop_engineering.WorkStore.Plan.{
  V2PacketPlan, V2ExecutionPacket, effect_attempt, checkpoint_identity, valid_plan,
}
use loop_engineering.WorkStore.Execution.{checkpoint_of, column_literals}

-- The columns of the effect of a packet are those of the plan.
unfoldable pub plan_columns : V2PacketPlan → PacketRow → Bool
plan_columns plan row =
    row.effect_kind == some plan.effect_kind
    && row.effect_target_identity == some plan.target_identity
    && row.effect_idempotency_key == some plan.idempotency_key
    && same_items row.expected_preconditions plan.expected_preconditions
    && same_items row.expected_effect plan.expected_effect

-- The tests on the three joined rows.
unfoldable pub startable :
    WorkRecord → V2ExecutionPacket → String → WorkRecord → PacketRow → WorkCheckpoint → Bool
startable work packet safe w p c =
    w.issue_revision == work.issue_revision
    && p.packet.identity == packet.identity
    && p.packet.generation == packet.generation
    && p.packet.status == "ISSUED"
    && c.identity == safe
    && c.checkpoint_kind == "SAFE_POINT"
    && c.task_packet_identity == some p.packet.identity
    && plan_columns packet.plan p

unfoldable pub start_joined :
    WorkRecord
    → V2ExecutionPacket
    → String
    → WorkRecord
    → Option PacketRow
    → Option WorkCheckpoint
    → Bool
start_joined work packet safe w (some p) (some c) = startable work packet safe w p c
start_joined work packet safe w p c = false

unfoldable pub start_found :
    WorkRecord → V2ExecutionPacket → String → Store → Option WorkRecord → Bool
start_found work packet safe s none = false
start_found work packet safe s (some w) =
    start_joined work packet safe w
      (by_identity (λ id. find_packet id s.packets) w.latest_task_packet_identity)
      (by_identity (λ id. find_checkpoint id s.checkpoints) w.latest_checkpoint_identity)

-- The rows `eligible`.
unfoldable pub start_eligible :
    WorkRecord → V2ExecutionPacket → String → String → EffectAttempt → Store → Bool
start_eligible work packet safe pending effect s =
    start_found work packet safe s (find_work work.identity s.works)
    && not (has_pending work.identity s.effects)
    && not (has_effect effect.idempotency_key s.effects)
    && not (has_checkpoint pending s.checkpoints)

unfoldable pub set_packet_status : String → WorkTaskPacket → WorkTaskPacket
set_packet_status status packet = record packet { status = status }

unfoldable pub point_work : String → WorkRecord → WorkRecord
point_work checkpoint w = record w { latest_checkpoint_identity = some checkpoint }

unfoldable pub started_point : V2ExecutionPacket → String → String → WorkCheckpoint
started_point packet pending run =
    checkpoint_of packet pending run "EFFECT_PENDING" "EFFECT_INTENT_RECORDED"
      "記録済み対象の外部効果を実行または読戻す"

-- `UPDATE loop_task_packets SET status = 'STARTED' ... AND status = 'ISSUED'`, for a packet that is.
unfoldable pub started_store :
    WorkRecord → V2ExecutionPacket → String → EffectAttempt → String → List LeaseRow → Store → Store
started_store work packet pending effect run leases s = record s {
  leases = leases;
  packets = update_packets packet.identity (set_packet_status "STARTED") s.packets;
  effects = s.effects ++ (effect ∷ []);
  checkpoints = s.checkpoints ++ (started_point packet pending run ∷ []);
  works = update_works work.identity (point_work pending) s.works;
}

pub record V2PacketStartResult : Type 0 where
  pub effect : EffectAttempt
  pub checkpoint_identity : String

unfoldable pub started :
    WorkRecord
    → V2ExecutionPacket
    → String
    → EffectAttempt
    → String
    → Store
    → Option (List LeaseRow)
    → Store × Option V2PacketStartResult
started work packet pending effect run s none = (s, none)
started work packet pending effect run s (some leases) = (
  started_store work packet pending effect run leases s,
  some (record { effect = effect; checkpoint_identity = pending }),
)

unfoldable pub lease_row : String → String → ℕ → ℕ → LeaseRow
lease_row work holder generation expires_at = record {
  work_identity = work;
  holder_identity = holder;
  packet_generation = generation;
  expires_at = expires_at;
}

unfoldable pub start_literals :
    WorkRecord → V2ExecutionPacket → String → String → String → String → Bool
start_literals work packet safe pending holder run =
    is_literal work.identity
    && is_literal work.issue_revision
    && is_literal packet.identity
    && is_literal safe
    && is_literal pending
    && is_literal holder
    && is_literal run
    && column_literals packet.plan

-- The tests of `start_packet`.
unfoldable pub valid_start : WorkRecord → V2ExecutionPacket → String → String → String → ℕ → Bool
valid_start work packet safe holder run seconds =
    packet.status == "ISSUED"
    && packet.work_identity == work.identity
    && not (is_empty holder)
    && not (is_empty run)
    && not (is_empty safe)
    && leb 1 seconds
    && leb seconds 3600

unfoldable pub pending_identity : (String → String) → V2ExecutionPacket → String
pending_identity sha256 packet = checkpoint_identity sha256 packet.identity "effect-pending"

-- `start_packet`
unfoldable pub start_packet :
    (String → String)
    → (Char → Digit)
    → WorkRecord
    → V2ExecutionPacket
    → String
    → String
    → String
    → ℕ
    → Store
    → Option (Store × Option V2PacketStartResult)
start_packet sha256 digit_of work packet safe holder run seconds s =
    let pending = pending_identity sha256 packet in
    let effect = effect_attempt packet.plan work.identity packet.generation in
    let row = lease_row work.identity holder packet.generation (s.now + seconds) in
    if not (valid_start work packet safe holder run seconds)
      || not (valid_plan digit_of packet.plan)
      || not (start_literals work packet safe pending holder run)
    then none
    else if start_eligible work packet safe pending effect s
    then some (started work packet pending effect run s (acquire (is_expired s.now) row s.leases))
    else some (s, none)
