-- ===== src/WorkStore/Finalized.antt =====
-- src/loop_engineering/v2_execution_state.py: the rows after a finalization.
use loop_engineering.Prelude.{◌⊎◌, ◌↔◌, ◌≢◌, ◌&&◌, ap, String, true, ◌≡◌, refl, some, arith}
use loop_engineering.Prelude.{◌==◌, string_eq, nat_eq, option_eq}
use loop_engineering.WorkState.{WorkRecord}
use loop_engineering.WorkStore.{PacketRow, Store, find_work, find_packet}
use loop_engineering.WorkStore.Rows.{find-update, find-update_packet, find-update_other_packet}
use loop_engineering.WorkStore.Start.{set_packet_status}
use loop_engineering.WorkStore.Plan.{V2ExecutionPacket}
use loop_engineering.WorkStore.Finalize.{
  final_status, final_work, finalized_store, closes_issue, V2PacketFinalizationResult,
}

-- The rows after it: those of the packet have the status, and the other packets, the effects and the leases
-- are as they were; the row of the work points to the checkpoint, and is COMPLETED when the answer says so.
pub record IsFinalized (p : V2ExecutionPacket) (s t : Store) (r : V2PacketFinalizationResult)
    : Type 0 where
  pub packet :
      (q : PacketRow) × (find_packet p.identity s.packets ≡ some q)
      × (find_packet p.identity t.packets
          ≡ some (record q { packet = record q.packet { status = r.packet_status } }))
  pub others :
      (identity : String)
      → identity ≢ p.identity
      → find_packet identity t.packets ≡ find_packet identity s.packets
  pub effects : t.effects ≡ s.effects
  pub leases : t.leases ≡ s.leases
  pub work :
      (w : WorkRecord) × (v : WorkRecord) × (find_work p.work_identity s.works ≡ some w)
      × (find_work p.work_identity t.works ≡ some v)
      × (v.latest_checkpoint_identity ≡ some r.checkpoint_identity)
      × (v.latest_task_packet_identity ≡ w.latest_task_packet_identity)
      × ((v.lifecycle ≡ "COMPLETED") ↔ (r.work_completed ≡ true))
      × ((v.lifecycle ≡ w.lifecycle)
          ⊎ ((r.effect_status ≡ "CONFIRMED") × (v.lifecycle ≡ "COMPLETED")))

pub finalized-packet :
    (p : V2ExecutionPacket) (run c status : String) (s : Store) (q : PacketRow)
    → find_packet p.identity s.packets ≡ some q
    → find_packet p.identity (finalized_store p run c status s).packets
      ≡ some (record q { packet = record q.packet { status = final_status status } })
unfolding finalized_store set_packet_status
finalized-packet p run c status s q found =
    let f =
      find-update_packet p.identity (set_packet_status (final_status status)) s.packets
        (λ o. refl) in
    ground arith

pub finalized-others :
    (p : V2ExecutionPacket) (run c status : String) (s : Store) (identity : String)
    → identity ≢ p.identity
    → find_packet identity (finalized_store p run c status s).packets
      ≡ find_packet identity s.packets
unfolding finalized_store set_packet_status
finalized-others p run c status s identity differ =
    find-update_other_packet p.identity identity (set_packet_status (final_status status)) s.packets
      (λ o. refl) differ

pub finalized-effects :
    (p : V2ExecutionPacket) (run c status : String) (s t : Store)
    → t ≡ finalized_store p run c status s
    → t.effects ≡ s.effects
unfolding finalized_store
finalized-effects p run c status s t after = ap (λ (o : Store). o.effects) after

pub finalized-leases :
    (p : V2ExecutionPacket) (run c status : String) (s t : Store)
    → t ≡ finalized_store p run c status s
    → t.leases ≡ s.leases
unfolding finalized_store
finalized-leases p run c status s t after = ap (λ (o : Store). o.leases) after

pub finalized-work :
    (p : V2ExecutionPacket) (run c status : String) (s : Store) (w : WorkRecord)
    → find_work p.work_identity s.works ≡ some w
    → find_work p.work_identity (finalized_store p run c status s).works
      ≡ some (final_work (status == "CONFIRMED" && closes_issue p s.packets) c w)
unfolding finalized_store final_work
finalized-work p run c status s w found =
    let f =
      find-update p.work_identity (final_work (status == "CONFIRMED" && closes_issue p s.packets) c)
        s.works (λ v e. e) in
    ground arith
