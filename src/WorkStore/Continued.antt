-- ===== src/WorkStore/Continued.antt =====
-- What `recover` and then `resume` make of a packet that was just started: src/loop_engineering/work_state.py
-- and src/loop_engineering/v2_resume.py after src/loop_engineering/v2_execution_state.py.
use mathlib.Core.Path.{subst}
use text.Mathlib.TextEquality.{eq_iff}
use Prim.Native.Char.{Char}
use loop_engineering.Prelude.{◌∙◌, ap, String, ℕ, true, ◌≡◌, refl, sym, some, List, [], ◌∷◌, arith}
use loop_engineering.Prelude.{◌==◌, string_eq, option_eq, nat_eq, all, leb}
use loop_engineering.WorkState.{WorkRecord, WorkCheckpoint, EffectAttempt, RecoveredWork}
use loop_engineering.V2EffectReadback.{Digit}
use loop_engineering.V2Resume.{ready, ResumePorts, resume, upsert_work, outcome}
use loop_engineering.V2Resume.Readiness.{SameWork}
use loop_engineering.V2Resume.Pending.{read_back_status, resume_started}
use loop_engineering.WorkStore.{
  PacketRow, LeaseRow, Store, find_work, find_packet, find_checkpoint, is_unresolved, is_pending_of,
  has_pending, has_checkpoint,
}
use loop_engineering.WorkStore.Recovery.{
  recover, recover_found, recovered, read_packet, read_effect, by_identity, pending_effects,
}
use loop_engineering.WorkStore.Plan.{V2PacketPlan, V2ExecutionPacket, effect_attempt}
use loop_engineering.WorkStore.Execution.{checkpoint_of}
use loop_engineering.WorkStore.Start.{
  startable, set_packet_status, point_work, started_store, started_point, pending_identity,
  start_packet, V2PacketStartResult,
}
use loop_engineering.WorkStore.Rows.{
  find-update, find-update_packet, found-identity, first-append, keep-append, found-packet,
  by_identity-some,
}
use loop_engineering.WorkStore.Started.{StartedFrom, start-StartedFrom}

-- What is recovered of a started packet, from the rows that were there.
unfoldable pub started_recovery :
    V2ExecutionPacket → EffectAttempt → String → String → WorkRecord → PacketRow → RecoveredWork
started_recovery p effect pending run w row = record {
  work = point_work pending w;
  task_packet = some (set_packet_status "STARTED" row.packet);
  checkpoint = some (started_point p pending run);
  pending_effects = read_effect effect ∷ [];
}

module _ (work : WorkRecord) (p : V2ExecutionPacket) (safe holder pending : String)
    (effect : EffectAttempt) (run : String) (seconds : ℕ) (s s' : Store) (w : WorkRecord)
    (row : PacketRow) (c : WorkCheckpoint) (leases : List LeaseRow)
    (h : StartedFrom work p safe holder pending effect run seconds s s' w row c leases) where
  started-work : find_work work.identity s'.works ≡ some (point_work pending w)
  unfolding started_store point_work
  started-work =
      let e = find-update work.identity (point_work pending) s.works (λ v e. e) in
      let f = h.joins.found in let a = h.after in ground arith

  pub started_row : (row.packet.identity ≡ p.identity) × (row.packet.generation ≡ p.generation)
  unfolding startable
  started_row = let t = h.joins.startable in (ground arith, ground arith)

  pub started-latest :
      (w.latest_task_packet_identity ≡ some p.identity)
      × (find_packet p.identity s.packets ≡ some row)
  started-latest =
      let (id, latest, found) =
        by_identity-some (λ i. find_packet i s.packets) w.latest_task_packet_identity row
          h.joins.packet in
      let same = found-packet id s.packets row found in
      let named = started_row.0 in (ground arith, ground arith)

  pub started-packet :
      find_packet p.identity s'.packets
      ≡ some (record row { packet = set_packet_status "STARTED" row.packet })
  unfolding started_store set_packet_status
  started-packet =
      let e = find-update_packet p.identity (set_packet_status "STARTED") s.packets (λ v. refl) in
      let f = started-latest.1 in let a = h.after in ground arith

  started-point : find_checkpoint pending s'.checkpoints ≡ some (started_point p pending run)
  unfolding find_checkpoint started_store started_point checkpoint_of has_checkpoint
  started-point =
      let e =
        first-append (λ (k : WorkCheckpoint). k.identity == pending) s.checkpoints
          (started_point p pending run) h.fresh_point (ground arith) in
      let a = h.after in ground arith

  started-pending :
      is_pending_of work.identity effect ≡ true
      → pending_effects work.identity s'.effects ≡ read_effect effect ∷ []
  unfolding pending_effects started_store has_pending
  started-pending own =
      let e = keep-append (is_pending_of work.identity) s.effects effect h.quiet own in
      let a = h.after in ground arith

  started_recover :
      is_pending_of work.identity effect ≡ true
      → effect.packet_generation ≡ some p.generation
      → leb 1 p.generation ≡ true
      → leb 1 w.issue_number ≡ true
      → recover work.identity s' ≡ some (some (started_recovery p effect pending run w row))
  unfolding recover recover_found recovered read_packet by_identity started_recovery all point_work
      set_packet_status
  started_recover own of_packet positive numbered =
      let i = found-identity work.identity s.works w h.joins.found in
      let a = started-work in
      let b = started-packet in
      let k = started-point in
      let d = started-pending own in
      let l = started-latest.0 in let g = started_row.1 in let t = h.literal in ground arith

effect-own :
    (plan : V2PacketPlan) (work : String) (generation : ℕ)
    → is_pending_of work (effect_attempt plan work generation) ≡ true
unfolding is_pending_of is_unresolved effect_attempt
effect-own plan work generation = ground (arith, eq_iff "INTENT_RECORDED" "INTENT_RECORDED")

module _ (sha256 : String → String) (digit_of : Char → Digit) (work : WorkRecord)
    (p : V2ExecutionPacket) (safe holder run : String) (seconds : ℕ) (s s' : Store)
    (r : V2PacketStartResult) (w : WorkRecord) where
  abbrev pending : String
  pending = pending_identity sha256 p

  abbrev effect : EffectAttempt
  effect = effect_attempt p.plan work.identity p.generation

  -- After `start_packet` has started a packet of a positive generation, on a work whose row has a positive
  -- issue number, `recover` of the work gives that row at the pending checkpoint of the packet, the stored
  -- packet as started, and the effect of its plan as the one pending effect.
  pub start_packet-recover :
      start_packet sha256 digit_of work p safe holder run seconds s ≡ some (s', some r)
      → find_work work.identity s.works ≡ some w
      → leb 1 w.issue_number ≡ true
      → leb 1 p.generation ≡ true
      → (row : PacketRow) × (find_packet p.identity s.packets ≡ some row)
        × (recover work.identity s'
            ≡ some (
                some (
                  started_recovery p
                    (effect_attempt p.plan work.identity p.generation)
                    (pending_identity sha256 p)
                    run
                    w
                    row)))
  unfolding effect_attempt
  start_packet-recover h found numbered positive =
      let (v, row, c, leases, from) =
        start-StartedFrom sha256 digit_of work p safe holder run seconds s s' r h in
      let same : v ≡ w = let f = from.joins.found in ground arith in
      let read =
        started_recover work p safe holder pending effect run seconds s s' v row c leases from
          (effect-own p.plan work.identity p.generation) refl positive (ground arith) in
      (
        row,
        (started-latest work p safe holder pending effect run seconds s s' v row c leases from).1,
        subst
            (λ z.
              recover work.identity s' ≡ some (some (started_recovery p effect pending run z row)))
            same read,
      )

  -- After `start_packet` has started such a packet, of a row of the same work, `resume` on what `recover`
  -- gives of the store, where the work definition is ready and is of the same work, writes that definition
  -- and then the outcome that is read back for the effect of the plan, and nothing else; it is for the
  -- packet to be finalized when that outcome is definite, and for reconciliation when it is not.
  pub start_packet-resumes :
      (ports : ResumePorts) (u : WorkRecord)
      → start_packet sha256 digit_of work p safe holder run seconds s ≡ some (s', some r)
      → find_work work.identity s.works ≡ some w
      → leb 1 w.issue_number ≡ true
      → leb 1 p.generation ≡ true
      → ((row : PacketRow)
          → find_packet p.identity s.packets ≡ some row
          → row.packet.work_identity ≡ work.identity)
      → recover work.identity s' ≡ some (ports.recover work.identity)
      → ((v : RecoveredWork)
          → ports.recover work.identity ≡ some v
          → ((ports.synchronize v.work).status ≡ ready)
            × ((ports.synchronize v.work).synchronized ≡ some u)
            × SameWork v.work u)
      → let e = read_effect (effect_attempt p.plan work.identity p.generation) in
        ((resume ports work.identity).0.status ≡ read_back_status (ports.readback e))
        × ((resume ports work.identity).1 ≡ upsert_work u ∷ outcome ports.readback e ∷ [])
  unfolding started_recovery started_point checkpoint_of point_work set_packet_status effect_attempt
  start_packet-resumes ports u h found numbered positive owned port defined =
      let (v, row, c, leases, from) =
        start-StartedFrom sha256 digit_of work p safe holder run seconds s s' r h in
      let same : v ≡ w = let f = from.joins.found in ground arith in
      let (at, generation) =
        started_row work p safe holder pending effect run seconds s s' v row c leases from in
      let (latest, stored) =
        started-latest work p safe holder pending effect run seconds s s' v row c leases from in
      let read =
        started_recover work p safe holder pending effect run seconds s s' v row c leases from
          (effect-own p.plan work.identity p.generation) refl positive (ground arith) in
      let x = started_recovery p effect pending run v row in
      let named = found-identity work.identity s.works v from.joins.found in
      let answered : ports.recover work.identity ≡ some x = ground arith in
      let (status, synchronized, same_work) = defined x answered in
      resume_started ports x (set_packet_status "STARTED" row.packet) (started_point p pending run)
        (read_effect effect) u work.identity answered
        (record {
          task = refl;
          point = refl;
          linked = record {
            packet_named = ground arith;
            checkpoint_named = refl;
            packet_work = owned row stored ∙ sym named;
            checkpoint_work = from.own ∙ sym named;
            checkpoint_packet = ap some (sym at);
          };
          pending = refl;
          own = ap some (sym generation);
          started = refl;
          defined = status;
          found = synchronized;
          same = same_work;
        })
