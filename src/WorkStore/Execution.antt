-- ===== src/WorkStore/Execution.antt =====
-- src/loop_engineering/v2_execution_state.py: the rows of packets. Every statement of the module
-- reads the store as it was before it, and writes all of its rows or none.
use Prim.Native.Char.{Char}
use loop_engineering.Prelude.{String, Bool, ◌&&◌, Option, none, some, [], ◌∷◌}
use loop_engineering.Prelude.{string_eq, nat_eq, option_eq, if◌then◌else◌, leb, sort_by, pair_le}
use loop_engineering.WorkState.{WorkRecord, WorkCheckpoint}
use loop_engineering.V2EffectReadback.{Digit}
use loop_engineering.WorkStore.{
  is_literal, is_json_array, is_json_object, PacketRow, Store, find_work, find_packet,
}
use loop_engineering.WorkStore.Plan.{V2PacketPlan, V2ExecutionPacket, valid_plan}

unfoldable pub issued_row : V2ExecutionPacket → PacketRow
issued_row packet = record {
  packet = record {
    identity = packet.identity;
    work_identity = packet.work_identity;
    generation = packet.generation;
    transition = packet.plan.transition;
    status = "ISSUED";
    canonical_design_identities = packet.plan.canonical_design_identities;
    external_target_identities = packet.plan.target_identity ∷ [];
  };
  effect_kind = some packet.plan.effect_kind;
  effect_target_identity = some packet.plan.target_identity;
  effect_idempotency_key = some packet.plan.idempotency_key;
  expected_preconditions = packet.plan.expected_preconditions;
  expected_effect = packet.plan.expected_effect;
}

unfoldable pub checkpoint_of :
    V2ExecutionPacket → String → String → String → String → String → WorkCheckpoint
checkpoint_of packet identity run kind state action = record {
  identity = identity;
  work_identity = packet.work_identity;
  run_identity = run;
  checkpoint_kind = kind;
  resumable_state = state;
  next_action = action;
  task_packet_identity = some packet.identity;
  external_target_identities = packet.plan.target_identity ∷ [];
  evidence_identities = [];
}

-- The columns of the effect, and the target of its checkpoints.
unfoldable pub column_literals : V2PacketPlan → Bool
column_literals plan =
    is_literal plan.effect_kind
    && is_literal plan.target_identity
    && is_literal plan.idempotency_key
    && is_json_array (plan.target_identity ∷ [])
    && is_json_object plan.expected_preconditions
    && is_json_object plan.expected_effect

unfoldable pub plan_literals : V2PacketPlan → Bool
plan_literals plan =
    is_literal plan.transition
    && is_json_array plan.canonical_design_identities
    && column_literals plan

-- What `_execution_packet` makes of a row, `none` where it raises.
unfoldable pub execution_packet : (Char → Digit) → PacketRow → Option V2ExecutionPacket
execution_packet digit_of row =
    with_columns row.effect_kind row.effect_target_identity row.effect_idempotency_key
  where
    valid : V2PacketPlan → Option V2ExecutionPacket
    valid plan =
        if leb 1 row.packet.generation && valid_plan digit_of plan
        then some (record {
          identity = row.packet.identity;
          work_identity = row.packet.work_identity;
          generation = row.packet.generation;
          status = row.packet.status;
          plan = plan;
        })
        else none

    with_columns : Option String → Option String → Option String → Option V2ExecutionPacket
    with_columns (some kind) (some target) (some key) = valid (record {
      transition = row.packet.transition;
      effect_kind = kind;
      target_identity = target;
      idempotency_key = key;
      expected_preconditions = sort_by pair_le row.expected_preconditions;
      expected_effect = sort_by pair_le row.expected_effect;
      canonical_design_identities = row.packet.canonical_design_identities;
    })
    with_columns kind target key = none

-- `_work_record`, `none` where it raises.
unfoldable pub read_work : Option WorkRecord → Option (Option WorkRecord)
read_work none = some none
read_work (some row) = if leb 1 row.issue_number then some (some row) else none

-- `work_record`
unfoldable pub work_record : String → Store → Option (Option WorkRecord)
work_record identity s =
    if is_literal identity then read_work (find_work identity s.works) else none

unfoldable pub read_row : (Char → Digit) → Option PacketRow → Option (Option V2ExecutionPacket)
read_row digit_of none = some none
read_row digit_of (some row) = elim (execution_packet digit_of row) [
  | none ↦ none
  | some packet ↦ some (some packet)
]

-- `packet`
unfoldable pub packet : (Char → Digit) → String → Store → Option (Option V2ExecutionPacket)
packet digit_of identity s =
    if is_literal identity then read_row digit_of (find_packet identity s.packets) else none
