-- ===== src/WorkStore/Transaction.antt =====
-- src/loop_engineering/work_state.py: `issue_packet_transaction`, a lease, packet, effect and checkpoint in
-- one statement.
use loop_engineering.Prelude.{
  ℕ, String, Bool, true, false, ◌+◌, ◌&&◌, ◌||◌, not, Option, none, some, List, [], ◌∷◌, ◌++◌,
}
use loop_engineering.Prelude.{
  ◌==◌, string_eq, nat_eq, option_eq, if◌then◌else◌, leb, is_nil, is_some,
}
use loop_engineering.WorkState.{WorkRecord, WorkCheckpoint, WorkTaskPacket, EffectAttempt}
use loop_engineering.WorkStore.{
  is_literal, LeaseRow, Store, find_work, has_pending, has_clash, has_checkpoint, has_effect,
  update_works, acquire,
}
use loop_engineering.WorkStore.Records.{
  work_literals, checkpoint_literals, packet_literals, effect_literals, bare_row,
}

pub record WorkLease : Type 0 where
  pub work_identity : String
  pub holder_identity : String
  pub packet_generation : ℕ
  pub lease_seconds : ℕ

-- The tests of `issue_packet_transaction`.
unfoldable pub valid_transaction :
    WorkRecord → WorkLease → WorkTaskPacket → EffectAttempt → WorkCheckpoint → Bool
valid_transaction work lease packet effect checkpoint =
    work.identity == lease.work_identity
    && packet.work_identity == work.identity
    && checkpoint.work_identity == work.identity
    && effect.work_identity == work.identity
    && checkpoint.task_packet_identity == some packet.identity
    && packet.status == "STARTED"
    && effect.status == "INTENT_RECORDED"
    && effect.packet_generation == some packet.generation
    && not (is_nil effect.expected_preconditions)
    && not (is_nil effect.expected_effect)
    && checkpoint.checkpoint_kind == "EFFECT_PENDING"
    && packet.generation == lease.packet_generation
    && leb 1 lease.packet_generation
    && leb 1 lease.lease_seconds
    && leb lease.lease_seconds 3600

-- The rows `eligible`.
unfoldable pub transaction_eligible :
    WorkRecord → WorkTaskPacket → EffectAttempt → WorkCheckpoint → Store → Bool
transaction_eligible work packet effect checkpoint s =
    is_some (find_work work.identity s.works)
    && not (has_clash packet.identity packet.work_identity packet.generation s.packets)
    && not (has_effect effect.idempotency_key s.effects)
    && not (has_pending work.identity s.effects)
    && not (has_checkpoint checkpoint.identity s.checkpoints)

-- `expires_at <= now()`
abbrev pub is_expired : ℕ → LeaseRow → Bool
is_expired now lease = leb lease.expires_at now

transaction_work : WorkRecord → WorkTaskPacket → WorkCheckpoint → WorkRecord → WorkRecord
transaction_work work packet checkpoint row = record row {
  issue_revision = work.issue_revision;
  lifecycle = work.lifecycle;
  selected_transition = work.selected_transition;
  active_lineage_identity = work.active_lineage_identity;
  latest_task_packet_identity = some packet.identity;
  latest_checkpoint_identity = some checkpoint.identity;
}

transacted :
    WorkRecord
    → WorkTaskPacket
    → EffectAttempt
    → WorkCheckpoint
    → Store
    → Option (List LeaseRow)
    → Store × Bool
unfolding transaction_work
transacted work packet effect checkpoint s none = (s, false)
transacted work packet effect checkpoint s (some leases) = (
  record s {
    leases = leases;
    packets = s.packets ++ (bare_row packet ∷ []);
    effects = s.effects ++ (effect ∷ []);
    checkpoints = s.checkpoints ++ (checkpoint ∷ []);
    works = update_works work.identity (transaction_work work packet checkpoint) s.works;
  },
  true,
)

-- `issue_packet_transaction`: the statement on the leases sees the effects as `eligible` does.
unfoldable pub issue_packet_transaction :
    WorkRecord
    → WorkLease
    → WorkTaskPacket
    → EffectAttempt
    → WorkCheckpoint
    → Store
    → Option (Store × Bool)
unfolding transacted
issue_packet_transaction work lease packet effect checkpoint s =
    let row : LeaseRow = record {
      work_identity = lease.work_identity;
      holder_identity = lease.holder_identity;
      packet_generation = lease.packet_generation;
      expires_at = s.now + lease.lease_seconds;
    } in
    if not (valid_transaction work lease packet effect checkpoint)
      || not (work_literals work)
      || not (is_literal lease.holder_identity)
      || not (packet_literals packet)
      || not (effect_literals effect)
      || not (checkpoint_literals checkpoint)
    then none
    else if transaction_eligible work packet effect checkpoint s
    then some (transacted work packet effect checkpoint s (acquire (is_expired s.now) row s.leases))
    else some (s, false)
