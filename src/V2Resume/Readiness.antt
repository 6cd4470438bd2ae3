-- ===== src/V2Resume/Readiness.antt =====
-- When `resume` lets a work be executed.
use text.Mathlib.TextEquality.{eq_iff}
use loop_engineering.Prelude.{String, true, ◌≡◌, refl, ◌↔◌, inl, inr, Option, none, some, [], arith}
use loop_engineering.Prelude.{string_eq, option_eq, nat_eq, any, Option-cases}
use loop_engineering.WorkState.{WorkRecord, WorkCheckpoint, WorkTaskPacket, RecoveredWork}
use loop_engineering.V2Resume.{
  ready, WorkDefinitionStatus, ResumePorts, complete_recovery, same_work, settle, settle_work,
  define_work, resume_recovered, by_parts, resume_from, resume,
}

-- The recovered identities refer to one another.
pub record IsRecovered (recovered : RecoveredWork) (packet : WorkTaskPacket)
    (checkpoint : WorkCheckpoint) : Type 0 where
  pub packet_named : recovered.work.latest_task_packet_identity ≡ some packet.identity
  pub checkpoint_named : recovered.work.latest_checkpoint_identity ≡ some checkpoint.identity
  pub packet_work : packet.work_identity ≡ recovered.work.identity
  pub checkpoint_work : checkpoint.work_identity ≡ recovered.work.identity
  pub checkpoint_packet : checkpoint.task_packet_identity ≡ some packet.identity

pub record SameWork (before after : WorkRecord) : Type 0 where
  pub identity : before.identity ≡ after.identity
  pub repository : before.repository ≡ after.repository
  pub issue_number : before.issue_number ≡ after.issue_number
  pub issue_revision : before.issue_revision ≡ after.issue_revision

-- An issued packet at a safe point, no effect in flight, and a work definition that still fits.
pub record IsResumable (ports : ResumePorts) (recovered : RecoveredWork) (packet : WorkTaskPacket)
    (checkpoint : WorkCheckpoint) (synchronized : WorkRecord) : Type 0 where
  pub linked : IsRecovered recovered packet checkpoint
  pub quiet : recovered.pending_effects ≡ []
  pub issued : packet.status ≡ "ISSUED"
  pub safe : checkpoint.checkpoint_kind ≡ "SAFE_POINT"
  pub defined : (ports.synchronize recovered.work).status ≡ ready
  pub found : (ports.synchronize recovered.work).synchronized ≡ some synchronized
  pub same : SameWork recovered.work synchronized

pub complete-IsRecovered :
    (r : RecoveredWork) (p : WorkTaskPacket) (c : WorkCheckpoint)
    → (complete_recovery r p c ≡ true) ↔ IsRecovered r p c
unfolding complete_recovery
complete-IsRecovered r p c = (λ h. ground arith, λ h. ground arith)

pub same_work-SameWork : (a b : WorkRecord) → (same_work a b ≡ true) ↔ SameWork a b
unfolding same_work
same_work-SameWork a b = (λ h. ground arith, λ h. ground arith)

module _ (ports : ResumePorts) where
  module _ (r : RecoveredWork) (p : WorkTaskPacket) (c : WorkCheckpoint) where
    ready_packet :
        (s : WorkDefinitionStatus) (w : WorkRecord)
        → (settle_work ports r p c s w).0.status ≡ ready
        → (p.status ≡ "ISSUED") × (c.checkpoint_kind ≡ "SAFE_POINT")
    unfolding settle_work
    ready_packet s w h = ground arith

    ready_definition :
        (s : WorkDefinitionStatus) (o : Option WorkRecord)
        → (define_work ports r p c s o).0.status ≡ ready
        → (w : WorkRecord) × (s ≡ ready)
          × (o ≡ some w)
          × (same_work r.work w ≡ true)
          × ((settle_work ports r p c s w).0.status ≡ ready)
    unfolding define_work
    ready_definition ready (some w) h = (w, refl, refl, ground arith, ground arith)
    ready_definition s o h = absurd (ground arith)

    resumable :
        (resume_recovered ports r p c).0.status ≡ ready
        → (w : WorkRecord) × IsResumable ports r p c w
    unfolding resume_recovered
    resumable h =
        let d = ports.synchronize r.work in
        let (w, defined, found, same, still) =
          ready_definition d.status d.synchronized (ground arith) in
        let (issued, safe) = ready_packet d.status w still in
        (
          w,
          record {
            linked = (complete-IsRecovered r p c).0 (ground arith);
            quiet = ground (arith, eq_iff "ISSUED" "STARTED");
            issued = issued;
            safe = safe;
            defined = defined;
            found = found;
            same = (same_work-SameWork r.work w).0 same;
          },
        )

    resumes :
        (w : WorkRecord)
        → IsResumable ports r p c w
        → (resume_recovered ports r p c).0.status ≡ ready
    unfolding resume_recovered any settle
    resumes w h =
        let linked = (complete-IsRecovered r p c).1 h.linked in
        let same = (same_work-SameWork r.work w).1 h.same in ground arith

  -- The store has all of it for the identity.
  abbrev pub CanResume : String → Type 0
  CanResume work_identity =
      (r : RecoveredWork) × (p : WorkTaskPacket) × (c : WorkCheckpoint) × (w : WorkRecord)
      × (ports.recover work_identity ≡ some r)
      × (r.task_packet ≡ some p)
      × (r.checkpoint ≡ some c)
      × IsResumable ports r p c w

  by_parts_ready :
      (r : RecoveredWork) (op : Option WorkTaskPacket) (oc : Option WorkCheckpoint)
      → (by_parts ports r op oc).0.status ≡ ready
      → (p : WorkTaskPacket) × (c : WorkCheckpoint) × (w : WorkRecord) × (op ≡ some p)
        × (oc ≡ some c)
        × IsResumable ports r p c w
  unfolding by_parts
  by_parts_ready r (some p) (some c) h =
      let (w, can) = resumable r p c h in (p, c, w, refl, refl, can)
  by_parts_ready r (some p) none h = absurd (ground arith)
  by_parts_ready r none oc h = absurd (ground arith)

  resume_ready : (id : String) → (resume ports id).0.status ≡ ready → CanResume id
  unfolding resume resume_from
  resume_ready id h = elim (Option-cases (ports.recover id)) [
    | inl missing ↦ absurd (ground arith)
    | inr (r, found) ↦
        let (p, c, w, task, point, can) =
          by_parts_ready r r.task_packet r.checkpoint (ground arith) in
        (r, p, c, w, found, task, point, can)
  ]

  ready_resume : (id : String) → CanResume id → (resume ports id).0.status ≡ ready
  unfolding resume by_parts
  ready_resume id (r, p, c, w, found, task, point, can) = ground (arith, resumes r p c w can)

  -- `resume` answers READY exactly when the work was recovered with a packet and a checkpoint that refer
  -- to one another, no effect is pending, the packet is issued at a safe point, and the synchronised
  -- definition is ready and is of the same work.
  pub ready_iff :
      (work_identity : String)
      → ((resume ports work_identity).0.status ≡ ready) ↔ CanResume work_identity
  ready_iff id = (resume_ready id, ready_resume id)
