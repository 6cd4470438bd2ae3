-- ===== src/V2Resume/Pending.antt =====
-- `resume` on a started packet with the one effect of its own that is pending.
use text.Mathlib.TextEquality.{eq_iff}
use loop_engineering.Prelude.{ap, Bool, String, true, false, ◌≡◌, refl, some, [], ◌∷◌, arith}
use loop_engineering.Prelude.{string_eq, option_eq, nat_eq, any}
use loop_engineering.WorkState.{
  WorkRecord, WorkCheckpoint, WorkTaskPacket, EffectAttempt, RecoveredWork,
}
use loop_engineering.V2Resume.{
  ready, finalize_required, reconcile_required, V2ResumeStatus, EffectReadbackStatus, confirmed,
  no_effect, unknown, ResumePorts, upsert_work, settle, go_on, outcome, settle_work, define_work,
  resume_recovered, by_packet, by_parts, resume_from, resume,
}
use loop_engineering.V2Resume.Readiness.{
  IsRecovered, SameWork, complete-IsRecovered, same_work-SameWork,
}

-- A started packet, its one pending effect, and a work definition that still fits.
pub record IsStarted (ports : ResumePorts) (r : RecoveredWork) (p : WorkTaskPacket)
    (c : WorkCheckpoint) (e : EffectAttempt) (synchronized : WorkRecord) : Type 0 where
  pub task : r.task_packet ≡ some p
  pub point : r.checkpoint ≡ some c
  pub linked : IsRecovered r p c
  pub pending : r.pending_effects ≡ e ∷ []
  pub own : e.packet_generation ≡ some p.generation
  pub started : p.status ≡ "STARTED"
  pub defined : (ports.synchronize r.work).status ≡ ready
  pub found : (ports.synchronize r.work).synchronized ≡ some synchronized
  pub same : SameWork r.work synchronized

-- What `resume` comes to on what was read back.
unfoldable pub read_back_status : EffectReadbackStatus → V2ResumeStatus
read_back_status unknown = reconcile_required
read_back_status _ = finalize_required

is_definite : EffectReadbackStatus → Bool
is_definite unknown = false
is_definite _ = true

module _ (ports : ResumePorts) (r : RecoveredWork) (p : WorkTaskPacket) (c : WorkCheckpoint)
    (e : EffectAttempt) (u : WorkRecord) where
  settle_one :
      (o : EffectReadbackStatus)
      → ports.readback e ≡ o
      → settle ports.readback (e ∷ []) ≡ (outcome ports.readback e ∷ [], is_definite o)
  unfolding settle go_on is_definite
  settle_one confirmed q = ground arith
  settle_one no_effect q = ground arith
  settle_one unknown q = ground arith

  started_status : p.status ≡ "STARTED" → (by_packet r p c).status ≡ finalize_required
  unfolding by_packet
  started_status started = ground (arith, eq_iff "ISSUED" "STARTED")

  settle_started :
      (o : EffectReadbackStatus)
      → ports.readback e ≡ o
      → r.pending_effects ≡ e ∷ []
      → p.status ≡ "STARTED"
      → ((settle_work ports r p c ready u).0.status ≡ read_back_status o)
        × ((settle_work ports r p c ready u).1 ≡ upsert_work u ∷ outcome ports.readback e ∷ [])
  unfolding settle_work read_back_status is_definite
  settle_started o q pending started =
      let one = settle_one o q in
      let same = ap (settle ports.readback) pending in
      let by = started_status started in
      elim o [ confirmed ↦ ground arith | no_effect ↦ ground arith | unknown ↦ ground arith ]

  pub resume_started :
      (id : String)
      → ports.recover id ≡ some r
      → IsStarted ports r p c e u
      → ((resume ports id).0.status ≡ read_back_status (ports.readback e))
        × ((resume ports id).1 ≡ upsert_work u ∷ outcome ports.readback e ∷ [])
  unfolding resume resume_from by_parts resume_recovered any define_work
  resume_started id recovered h =
      let linked = (complete-IsRecovered r p c).1 h.linked in
      let same = (same_work-SameWork r.work u).1 h.same in
      let s = settle_started (ports.readback e) refl h.pending h.started in ground arith
