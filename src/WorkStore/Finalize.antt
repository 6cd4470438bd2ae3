-- ===== src/WorkStore/Finalize.antt =====
-- src/loop_engineering/v2_execution_state.py: the end of a started packet, and the lease that it needs.
use loop_engineering.Prelude.{
  ℕ, String, Bool, true, false, ◌+◌, ◌&&◌, ◌||◌, not, Option, none, some, List, [], ◌∷◌, ◌++◌,
}
use loop_engineering.Prelude.{
  ◌==◌, ◌!=◌, count, string_eq, nat_eq, option_eq, if◌then◌else◌, contains, any, keep, leb,
  is_empty, is_some, lookup,
}
use loop_engineering.WorkState.{WorkRecord, EffectAttempt}
use loop_engineering.WorkStore.{
  is_literal, is_json_array, PacketRow, LeaseRow, Store, find_work, find_packet, has_pending,
  has_checkpoint, update_works, update_packets, acquire,
}
use loop_engineering.WorkStore.Transaction.{is_expired}
use loop_engineering.WorkStore.Plan.{V2ExecutionPacket, checkpoint_identity}
use loop_engineering.WorkStore.Execution.{checkpoint_of}
use loop_engineering.WorkStore.Start.{lease_row, set_packet_status}

-- `p.status IN (...)`, of a packet of the generation.
holds_terminal : String → ℕ → PacketRow → Bool
holds_terminal work generation row =
    row.packet.work_identity == work
    && row.packet.generation == generation
    && contains ("STARTED" ∷ "COMPLETED" ∷ "SUPERSEDED" ∷ []) row.packet.status

unfoldable pub terminal_leased : Store → Option (List LeaseRow) → Store × Bool
terminal_leased s none = (s, false)
terminal_leased s (some leases) = (record s { leases = leases }, true)

-- `acquire_terminal_lease`
unfoldable pub acquire_terminal_lease : String → ℕ → String → ℕ → Store → Option (Store × Bool)
unfolding holds_terminal
acquire_terminal_lease work generation holder seconds s =
    if not (leb 1 generation)
      || is_empty holder
      || not (leb 1 seconds)
      || not (leb seconds 3600)
      || not (is_literal work)
      || not (is_literal holder)
    then none
    else if any (holds_terminal work generation) s.packets && not (has_pending work s.effects)
    then some (
        terminal_leased s (
          acquire (λ (l : LeaseRow). is_expired s.now l || l.holder_identity == holder)
            (lease_row work holder generation (s.now + seconds)) s.leases))
    else some (s, false)

unfoldable pub is_effect_of : String → ℕ → EffectAttempt → Bool
is_effect_of work generation e = e.work_identity == work && e.packet_generation == some generation

unfoldable pub is_terminal_of : String → ℕ → EffectAttempt → Bool
is_terminal_of work generation e =
    is_effect_of work generation e && (e.status == "CONFIRMED" || e.status == "NO_EFFECT")

-- `len(rows) != 1`
unfoldable pub only_status : List EffectAttempt → Option String
only_status (e ∷ []) = some e.status
only_status effects = none

-- `terminal_effect_status`
unfoldable pub terminal_effect_status : String → ℕ → Store → Option (Option String)
terminal_effect_status work generation s =
    if is_literal work
    then some (only_status (keep (is_terminal_of work generation) s.effects))
    else none

pub record V2PacketFinalizationResult : Type 0 where
  pub packet_status : String
  pub effect_status : String
  pub checkpoint_identity : String
  pub work_completed : Bool

unfoldable pub final_status : String → String
final_status effect_status = if effect_status == "CONFIRMED" then "COMPLETED" else "SUPERSEDED"

unfoldable pub final_kind : String → String
final_kind effect_status =
    if effect_status == "CONFIRMED" then "EFFECT_CONFIRMED" else "EFFECT_NO_EFFECT"

unfoldable pub final_action : String → String
final_action effect_status =
    if effect_status == "CONFIRMED" then "次の作業パケットを明示発行する" else "必要なら新generationの作業パケットを明示発行する"

-- The rows of `loop_task_packets` and `loop_work_leases` that are joined.
unfoldable pub is_started : V2ExecutionPacket → PacketRow → Bool
is_started packet row =
    row.packet.identity == packet.identity
    && row.packet.work_identity == packet.work_identity
    && row.packet.generation == packet.generation
    && row.packet.status == "STARTED"

unfoldable pub held_by : V2ExecutionPacket → String → ℕ → LeaseRow → Bool
held_by packet holder now l =
    l.work_identity == packet.work_identity
    && l.holder_identity == holder
    && l.packet_generation == packet.generation
    && not (is_expired now l)

unfoldable pub with_status_of : V2ExecutionPacket → String → EffectAttempt → Bool
with_status_of packet status e =
    is_effect_of packet.work_identity packet.generation e && e.status == status

-- The rows `eligible`.
unfoldable pub finalize_eligible : V2ExecutionPacket → String → String → Store → Bool
finalize_eligible packet holder effect_status s =
    any (is_started packet) s.packets
    && is_some (find_work packet.work_identity s.works)
    && any (held_by packet holder s.now) s.leases
    && count (with_status_of packet effect_status) s.effects == 1

closes : PacketRow → Bool
closes row =
    row.effect_kind == some "ISSUE_UPDATE" && lookup "state" row.expected_effect == some "CLOSED"

-- `EXISTS (SELECT 1 FROM loop_task_packets p2 ...)`
unfoldable pub closes_issue : V2ExecutionPacket → List PacketRow → Bool
unfolding closes
closes_issue packet packets = elim (find_packet packet.identity packets) [
  | none ↦ false
  | some row ↦ closes row
]

unfoldable pub final_work : Bool → String → WorkRecord → WorkRecord
final_work closed checkpoint w = record w {
  lifecycle = if closed then "COMPLETED" else w.lifecycle;
  latest_checkpoint_identity = some checkpoint;
}

-- The store after the statement on an eligible packet.
unfoldable pub finalized_store : V2ExecutionPacket → String → String → String → Store → Store
finalized_store packet run checkpoint effect_status s = record s {
  packets =
      update_packets packet.identity (set_packet_status (final_status effect_status)) s.packets;
  checkpoints =
      s.checkpoints
      ++ (checkpoint_of packet checkpoint run (final_kind effect_status) (final_kind effect_status)
            (final_action effect_status)
          ∷ []);
  works =
      update_works packet.work_identity
        (final_work (effect_status == "CONFIRMED" && closes_issue packet s.packets) checkpoint)
        s.works;
}

-- `lifecycle = 'COMPLETED'` of the updated work.
unfoldable pub is_completed : Option WorkRecord → Bool
is_completed none = false
is_completed (some w) = w.lifecycle == "COMPLETED"

unfoldable pub finalize_literals : V2ExecutionPacket → String → String → String → Bool
finalize_literals packet holder run checkpoint =
    is_literal packet.work_identity
    && is_literal packet.identity
    && is_literal holder
    && is_literal checkpoint
    && is_literal run
    && is_json_array (packet.plan.target_identity ∷ [])

unfoldable pub finalize_with :
    V2ExecutionPacket
    → String
    → String
    → String
    → String
    → Store
    → Option (Store × Option V2PacketFinalizationResult)
unfolding is_completed
finalize_with packet holder run checkpoint effect_status s =
    let after = finalized_store packet run checkpoint effect_status s in
    if not (finalize_literals packet holder run checkpoint)
    then none
    else if not (finalize_eligible packet holder effect_status s)
    then some (s, none)
    else if has_checkpoint checkpoint s.checkpoints
    then none
    else some (
      after,
      some (record {
        packet_status = final_status effect_status;
        effect_status = effect_status;
        checkpoint_identity = checkpoint;
        work_completed = is_completed (find_work packet.work_identity after.works);
      }),
    )

unfoldable pub final_identity : (String → String) → V2ExecutionPacket → String → String
final_identity sha256 packet effect_status =
    checkpoint_identity sha256 packet.identity
      (if effect_status == "CONFIRMED" then "confirmed" else "no-effect")

unfoldable pub finalize_terminal :
    (String → String)
    → V2ExecutionPacket
    → String
    → String
    → Store
    → Option (Option String)
    → Option (Store × Option V2PacketFinalizationResult)
finalize_terminal sha256 packet holder run s none = none
finalize_terminal sha256 packet holder run s (some none) = some (s, none)
finalize_terminal sha256 packet holder run s (some (some effect_status)) =
    finalize_with packet holder run (final_identity sha256 packet effect_status) effect_status s

-- `finalize_packet`
unfoldable pub finalize_packet :
    (String → String)
    → V2ExecutionPacket
    → String
    → String
    → Store
    → Option (Store × Option V2PacketFinalizationResult)
finalize_packet sha256 packet holder run s =
    if packet.status != "STARTED" || is_empty holder || is_empty run
    then none
    else finalize_terminal sha256 packet holder run s
        (terminal_effect_status packet.work_identity packet.generation s)

-- `release_lease`
unfoldable pub release_lease : String → String → Store → Option Store
release_lease work holder s =
    if is_empty holder || not (is_literal work) || not (is_literal holder)
    then none
    else some (record s {
      leases =
          keep (λ (l : LeaseRow). not (l.work_identity == work && l.holder_identity == holder))
            s.leases;
    })
