-- ===== src/WorkStore/Preserved.antt =====
-- src/loop_engineering/v2_execution_state.py: what the other statements keep of the open packets.
use mathlib.Core.Path.{subst}
use text.Mathlib.TextEquality.{eq_iff}
use loop_engineering.Prelude.{
  String, ℕ, Bool, ◌≡◌, refl, sym, ap, inl, inr, Option, none, some, List, [], ◌∷◌, ◌++◌, arith,
  ◌+◌, ◌||◌, ◌&&◌,
}
use loop_engineering.Prelude.{◌==◌, string_eq, nat_eq, option_eq, Bool-cases, is_some}
use loop_engineering.WorkState.{WorkRecord, WorkCheckpoint, EffectAttempt}
use loop_engineering.WorkStore.{LeaseRow, Store, find_work, update_works, acquire}
use loop_engineering.WorkStore.Records.{
  has_work, record_effect_outcome, record_effect_intent, record_checkpoint, point_checkpoint,
  upsert_work, overwritten,
}
use loop_engineering.WorkStore.Transaction.{is_expired}
use loop_engineering.WorkStore.Plan.{V2ExecutionPacket}
use loop_engineering.WorkStore.Cutover.{planned_work, migrate_candidate}
use loop_engineering.WorkStore.Start.{set_packet_status, lease_row}
use loop_engineering.WorkStore.Finalize.{
  closes_issue, finalize_eligible, final_identity, final_status, final_work, finalized_store,
  finalize_with, finalize_terminal, finalize_packet, acquire_terminal_lease, release_lease,
  terminal_effect_status, terminal_leased, V2PacketFinalizationResult,
}
use loop_engineering.WorkStore.Rows.{find-append}
use loop_engineering.WorkStore.Steps.{is_open, IsKept}
use loop_engineering.WorkStore.Keeping.{Follows, update-Follows, follow-IsKept, update-IsKept}

-- Every work found is found as it was.
same-Follows : (works : List WorkRecord) → Follows works works
same-Follows works id w found = (w, found, refl)

append-Follows : (v : WorkRecord) (works : List WorkRecord) → Follows works (works ++ (v ∷ []))
append-Follows v works id w found = (w, find-append id works w v found, refl)

-- Neither packets nor works are written.
pub same-IsKept : (s t : Store) → IsKept s → t.packets ≡ s.packets → t.works ≡ s.works → IsKept t
same-IsKept s t kept packets works =
    follow-IsKept s t kept packets (subst (Follows s.works) (sym works) (same-Follows s.works))

module _ (s t : Store) (kept : IsKept s) where
  pub migrate-IsKept :
      (work : WorkRecord) (b : Bool) → migrate_candidate work s ≡ some (t, b) → IsKept t
  unfolding migrate_candidate
  migrate-IsKept work b h = elim (Bool-cases (is_some (find_work work.identity s.works))) [
    | inl known ↦ same-IsKept s t kept (ground arith) (ground arith)
    | inr missing ↦
        let works : t.works ≡ s.works ++ (planned_work work ∷ []) = ground arith in
        follow-IsKept s t kept (ground arith)
          (subst (Follows s.works) (sym works) (append-Follows (planned_work work) s.works))
  ]

  pub release-IsKept : (work holder : String) → release_lease work holder s ≡ some t → IsKept t
  unfolding release_lease
  release-IsKept work holder h = same-IsKept s t kept (ground arith) (ground arith)

  leased :
      (o : Option (List LeaseRow))
      → ((terminal_leased s o).0.packets ≡ s.packets) × ((terminal_leased s o).0.works ≡ s.works)
  unfolding terminal_leased
  leased none = (refl, refl)
  leased (some ls) = (refl, refl)

  pub lease-IsKept :
      (work : String) (generation : ℕ) (holder : String) (seconds : ℕ) (b : Bool)
      → acquire_terminal_lease work generation holder seconds s ≡ some (t, b)
      → IsKept t
  unfolding acquire_terminal_lease
  lease-IsKept work generation holder seconds b h =
      let row = lease_row work holder generation (s.now + seconds) in
      let (packets, works) = leased (
        acquire (λ (l : LeaseRow). is_expired s.now l || l.holder_identity == holder) row
          s.leases) in
      same-IsKept s t kept (ground arith) (ground arith)

  pub settle-IsKept : (key status : String) → record_effect_outcome key status s ≡ some t → IsKept t
  unfolding record_effect_outcome
  settle-IsKept key status h = same-IsKept s t kept (ground arith) (ground arith)

  pub intend-IsKept :
      (attempt : EffectAttempt) (b : Bool) → record_effect_intent attempt s ≡ some (t, b) → IsKept t
  unfolding record_effect_intent
  intend-IsKept attempt b h = same-IsKept s t kept (ground arith) (ground arith)

  pub checkpoint-IsKept : (point : WorkCheckpoint) → record_checkpoint point s ≡ some t → IsKept t
  unfolding record_checkpoint point_checkpoint
  checkpoint-IsKept point h =
      let works : t.works
          ≡ update_works point.work_identity (point_checkpoint point.identity) s.works =
        ground arith in
      follow-IsKept s t kept (ground arith) (
        subst (Follows s.works) (sym works) (
          update-Follows point.work_identity (point_checkpoint point.identity) s.works (λ v e. e)
            (λ v found. refl)))

  pub upsert-IsKept :
      (work : WorkRecord)
      → ((w : WorkRecord)
          → find_work work.identity s.works ≡ some w
          → work.latest_task_packet_identity ≡ w.latest_task_packet_identity)
      → upsert_work work s ≡ some t
      → IsKept t
  unfolding upsert_work overwritten
  upsert-IsKept work points h = elim (Bool-cases (has_work work.identity s.works)) [
    | inl known ↦
        let works : t.works ≡ update_works work.identity (overwritten work) s.works =
          ground arith in
        follow-IsKept s t kept (ground arith) (
          subst (Follows s.works) (sym works)
            (update-Follows work.identity (overwritten work) s.works (λ v e. refl) points))
    | inr missing ↦
        let works : t.works ≡ s.works ++ (work ∷ []) = ground arith in
        follow-IsKept s t kept (ground arith)
          (subst (Follows s.works) (sym works) (append-Follows work s.works))
  ]

  finalized-IsKept :
      (p : V2ExecutionPacket) (run c status : String)
      → t ≡ finalized_store p run c status s
      → IsKept t
  unfolding finalized_store set_packet_status final_work final_status is_open
  finalized-IsKept p run c status h =
      let closed = status == "CONFIRMED" && closes_issue p s.packets in
      update-IsKept s p.identity (set_packet_status (final_status status))
        (update_works p.work_identity (final_work closed c) s.works) kept (λ q. refl) (λ q. refl)
        (λ q m e live. absurd (
          ground (
            arith,
            eq_iff "COMPLETED" "ISSUED",
            eq_iff "COMPLETED" "STARTED",
            eq_iff "SUPERSEDED" "ISSUED",
            eq_iff "SUPERSEDED" "STARTED",
          )))
        (update-Follows p.work_identity (final_work closed c) s.works (λ v e. e) (λ v found. refl))
        t (ap (λ (o : Store). o.packets) h) (ap (λ (o : Store). o.works) h)

  finalize_with-IsKept :
      (p : V2ExecutionPacket) (holder run c status : String) (r : Option V2PacketFinalizationResult)
      → finalize_with p holder run c status s ≡ some (t, r)
      → IsKept t
  unfolding finalize_with
  finalize_with-IsKept p holder run c status r h =
      elim (Bool-cases (finalize_eligible p holder status s)) [
        | inl eligible ↦ finalized-IsKept p run c status (ground arith)
        | inr other ↦ same-IsKept s t kept (ground arith) (ground arith)
      ]

  finalize_terminal-IsKept :
      (sha256 : String → String) (p : V2ExecutionPacket) (holder run : String)
      (r : Option V2PacketFinalizationResult) (o : Option (Option String))
      → finalize_terminal sha256 p holder run s o ≡ some (t, r)
      → IsKept t
  unfolding finalize_terminal
  finalize_terminal-IsKept sha256 p holder run r none h = absurd (ground arith)
  finalize_terminal-IsKept sha256 p holder run r (some none) h =
      same-IsKept s t kept (ground arith) (ground arith)
  finalize_terminal-IsKept sha256 p holder run r (some (some status)) h =
      finalize_with-IsKept p holder run (final_identity sha256 p status) status r h

  pub finalize-IsKept :
      (sha256 : String → String) (p : V2ExecutionPacket) (holder run : String)
      (r : Option V2PacketFinalizationResult)
      → finalize_packet sha256 p holder run s ≡ some (t, r)
      → IsKept t
  unfolding finalize_packet
  finalize-IsKept sha256 p holder run r h =
      finalize_terminal-IsKept sha256 p holder run r
        (terminal_effect_status p.work_identity p.generation s) (ground arith)
