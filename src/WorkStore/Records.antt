-- ===== src/WorkStore/Records.antt =====
-- src/loop_engineering/work_state.py: the operations of `PostgreSQLWorkStateStore`.
use loop_engineering.Prelude.{
  ℕ, String, Bool, false, ◌&&◌, ◌||◌, not, Option, none, some, List, [], ◌∷◌, ◌++◌,
}
use loop_engineering.Prelude.{
  ◌==◌, ◌!=◌, string_eq, nat_eq, option_eq, if◌then◌else◌, contains, any, first, leb, is_nil,
  is_some,
}
use loop_engineering.WorkState.{WorkRecord, WorkCheckpoint, WorkTaskPacket, EffectAttempt}
use loop_engineering.WorkStore.{
  is_literal, is_nullable, is_json_array, is_json_object, PacketRow, Store, find_packet,
  is_unresolved, has_clash, has_checkpoint, has_effect, update_works,
}

abbrev lifecycles : List String
lifecycles = "PLANNED" ∷ "SELECTED" ∷ "RUNNING" ∷ "WAITING" ∷ "BLOCKED" ∷ "COMPLETED" ∷ []

abbrev checkpoint_kinds : List String
checkpoint_kinds = "SAFE_POINT" ∷ "EFFECT_PENDING" ∷ "EFFECT_CONFIRMED" ∷ "WAITING" ∷ []

abbrev effect_statuses : List String
effect_statuses = "INTENT_RECORDED" ∷ "CONFIRMED" ∷ "NO_EFFECT" ∷ "UNCERTAIN" ∷ []

abbrev packet_statuses : List String
packet_statuses = "ISSUED" ∷ "STARTED" ∷ "COMPLETED" ∷ "SUPERSEDED" ∷ "UNCERTAIN" ∷ []

unfoldable pub work_literals : WorkRecord → Bool
work_literals work =
    is_literal work.identity
    && is_literal work.repository
    && is_literal work.issue_revision
    && is_literal work.lifecycle
    && is_nullable work.selected_transition
    && is_nullable work.active_lineage_identity
    && is_nullable work.latest_task_packet_identity
    && is_nullable work.latest_checkpoint_identity

unfoldable pub checkpoint_literals : WorkCheckpoint → Bool
checkpoint_literals checkpoint =
    is_literal checkpoint.identity
    && is_literal checkpoint.work_identity
    && is_literal checkpoint.run_identity
    && is_nullable checkpoint.task_packet_identity
    && is_literal checkpoint.checkpoint_kind
    && is_literal checkpoint.resumable_state
    && is_literal checkpoint.next_action
    && is_json_array checkpoint.external_target_identities
    && is_json_array checkpoint.evidence_identities

unfoldable pub packet_literals : WorkTaskPacket → Bool
packet_literals packet =
    is_literal packet.identity
    && is_literal packet.work_identity
    && is_literal packet.transition
    && is_literal packet.status
    && is_json_array packet.canonical_design_identities
    && is_json_array packet.external_target_identities

unfoldable pub effect_literals : EffectAttempt → Bool
effect_literals effect =
    is_literal effect.idempotency_key
    && is_literal effect.work_identity
    && is_literal effect.kind
    && is_literal effect.target_identity
    && is_nullable effect.request_identity
    && is_json_object effect.expected_preconditions
    && is_json_object effect.expected_effect

-- `UNIQUE (repository, issue_number)`
unfoldable pub breaks_issue : WorkRecord → WorkRecord → Bool
breaks_issue work row = row.repository == work.repository && row.issue_number == work.issue_number

-- `ON CONFLICT (identity) DO UPDATE SET` leaves the repository and the issue.
unfoldable pub overwritten : WorkRecord → WorkRecord → WorkRecord
overwritten work row = record work { repository = row.repository; issue_number = row.issue_number }

unfoldable pub has_work : String → List WorkRecord → Bool
has_work identity works = any (λ (w : WorkRecord). w.identity == identity) works

-- `upsert_work`
unfoldable pub upsert_work : WorkRecord → Store → Option Store
upsert_work work s =
    if not (contains lifecycles work.lifecycle)
      || not (leb 1 work.issue_number)
      || not (work_literals work)
    then none
    else if has_work work.identity s.works
    then some (record s { works = update_works work.identity (overwritten work) s.works })
    else if any (breaks_issue work) s.works
    then none
    else some (record s { works = s.works ++ (work ∷ []) })

unfoldable pub point_checkpoint : String → WorkRecord → WorkRecord
point_checkpoint identity w = record w { latest_checkpoint_identity = some identity }

unfoldable pub point_packet : String → WorkRecord → WorkRecord
point_packet identity w = record w { latest_task_packet_identity = some identity }

-- `record_checkpoint`
unfoldable pub record_checkpoint : WorkCheckpoint → Store → Option Store
record_checkpoint checkpoint s =
    if not (contains checkpoint_kinds checkpoint.checkpoint_kind)
      || not (checkpoint_literals checkpoint)
    then none
    else some (record s {
      checkpoints =
          if has_checkpoint checkpoint.identity s.checkpoints
          then s.checkpoints
          else s.checkpoints ++ (checkpoint ∷ []);
      works = update_works checkpoint.work_identity (point_checkpoint checkpoint.identity) s.works;
    })

-- The row of a packet without the columns of an effect.
abbrev pub bare_row : WorkTaskPacket → PacketRow
bare_row packet = record {
  packet = packet;
  effect_kind = none;
  effect_target_identity = none;
  effect_idempotency_key = none;
  expected_preconditions = [];
  expected_effect = [];
}

-- `record_task_packet`: the first statement fails on another packet of the generation.
unfoldable pub record_task_packet : WorkTaskPacket → Store → Option Store
record_task_packet packet s =
    if not (leb 1 packet.generation)
      || not (contains packet_statuses packet.status)
      || not (packet_literals packet)
    then none
    else if is_some (find_packet packet.identity s.packets)
    then some (record s {
      works = update_works packet.work_identity (point_packet packet.identity) s.works;
    })
    else if has_clash packet.identity packet.work_identity packet.generation s.packets
    then none
    else some (record s {
      packets = s.packets ++ (bare_row packet ∷ []);
      works = update_works packet.work_identity (point_packet packet.identity) s.works;
    })

generation_given : Option ℕ → Bool
generation_given none = false
generation_given (some n) = leb 1 n

-- `rows and rows[0]["status"] == "INTENT_RECORDED"`
intent_there : Option EffectAttempt → Bool
intent_there none = false
intent_there (some row) = row.status == "INTENT_RECORDED"

-- `record_effect_intent`
unfoldable pub record_effect_intent : EffectAttempt → Store → Option (Store × Bool)
unfolding generation_given intent_there
record_effect_intent attempt s =
    let effects =
      if has_effect attempt.idempotency_key s.effects
      then s.effects
      else s.effects ++ (attempt ∷ []) in
    if attempt.status != "INTENT_RECORDED"
      || not (generation_given attempt.packet_generation)
      || is_nil attempt.expected_preconditions
      || is_nil attempt.expected_effect
      || not (effect_literals attempt)
    then none
    else some (
      record s { effects = effects },
      intent_there
          (first (λ (e : EffectAttempt). e.idempotency_key == attempt.idempotency_key) effects),
    )

abbrev pub with_effect_status : String → EffectAttempt → EffectAttempt
with_effect_status status e = record e { status = status }

-- `UPDATE loop_effect_attempts SET status = ... WHERE ... AND status IN ('INTENT_RECORDED', 'UNCERTAIN')`
unfoldable pub settle_effects : String → String → List EffectAttempt → List EffectAttempt
settle_effects key status [] = []
settle_effects key status (e ∷ effects) =
    let rest = settle_effects key status effects in
    if e.idempotency_key == key && is_unresolved e
    then with_effect_status status e ∷ rest
    else e ∷ rest

-- `record_effect_outcome`
unfoldable pub record_effect_outcome : String → String → Store → Option Store
record_effect_outcome key status s =
    if not (contains effect_statuses status) || status == "INTENT_RECORDED" || not (is_literal key)
    then none
    else some (record s { effects = settle_effects key status s.effects })
