-- ===== src/WorkStore/Recovery.antt =====
-- src/loop_engineering/work_state.py: `recover`, what is read of a work after a stop.
use loop_engineering.Prelude.{String, Bool, true, ◌||◌, not, Option, none, some, List, map}
use loop_engineering.Prelude.{
  string_eq, nat_eq, option_eq, all, if◌then◌else◌, keep, leb, sort_by, pair_le,
}
use loop_engineering.WorkState.{WorkRecord, WorkTaskPacket, EffectAttempt, RecoveredWork}
use loop_engineering.WorkStore.{
  is_literal, PacketRow, Store, find_work, find_packet, find_checkpoint, is_pending_of,
}

-- `_string_pairs`
abbrev pub read_effect : EffectAttempt → EffectAttempt
read_effect e = record e {
  expected_preconditions = sort_by pair_le e.expected_preconditions;
  expected_effect = sort_by pair_le e.expected_effect;
}

-- `_pending_effects`
unfoldable pub pending_effects : String → List EffectAttempt → List EffectAttempt
pending_effects work effects = map read_effect (keep (is_pending_of work) effects)

-- `_optional_positive_int`
generation_valid : EffectAttempt → Bool
generation_valid e = elim e.packet_generation [ none ↦ true | some n ↦ leb 1 n ]

-- `_task_packet`: `none` for a row that is invalid.
unfoldable pub read_packet : Option PacketRow → Option (Option WorkTaskPacket)
read_packet none = some none
read_packet (some row) = if leb 1 row.packet.generation then some (some row.packet) else none

-- `None` for no identity, or for no row.
unfoldable pub by_identity {ℓ} : {A : Type ℓ} → (String → Option A) → Option String → Option A
by_identity find none = none
by_identity find (some identity) = find identity

unfoldable pub recovered :
    WorkRecord → Store → Option (Option WorkTaskPacket) → Option (Option RecoveredWork)
unfolding generation_valid
recovered work s none = none
recovered work s (some packet) =
    let effects = pending_effects work.identity s.effects in
    if not (leb 1 work.issue_number) || not (all generation_valid effects)
    then none
    else some (
        some (record {
          work = work;
          task_packet = packet;
          checkpoint =
              by_identity (λ id. find_checkpoint id s.checkpoints) work.latest_checkpoint_identity;
          pending_effects = effects;
        }))

unfoldable pub recover_found : Store → Option WorkRecord → Option (Option RecoveredWork)
recover_found s none = some none
recover_found s (some work) =
    recovered work s
      (read_packet (by_identity (λ id. find_packet id s.packets) work.latest_task_packet_identity))

-- `recover`: the work's identity is the one that was asked for.
unfoldable pub recover : String → Store → Option (Option RecoveredWork)
recover work_identity s =
    if is_literal work_identity then recover_found s (find_work work_identity s.works) else none
