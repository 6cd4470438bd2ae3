-- ===== src/WorkStore/Begun.antt =====
-- src/loop_engineering/v2_execution_state.py: what a start keeps of the open packets.
use mathlib.Core.Path.{subst}
use loop_engineering.Prelude.{◌∙◌, String, ℕ, true, ◌≡◌, refl, sym, ap, List, arith}
use loop_engineering.Prelude.{◌==◌, string_eq, nat_eq, option_eq, In, first-In}
use loop_engineering.WorkState.{WorkRecord, WorkCheckpoint, EffectAttempt}
use loop_engineering.WorkStore.{PacketRow, LeaseRow, Store, find_packet, update_works}
use loop_engineering.WorkStore.Plan.{V2ExecutionPacket, effect_attempt}
use loop_engineering.WorkStore.Start.{startable, set_packet_status, point_work, started_store}
use loop_engineering.WorkStore.Started.{StartedFrom}
use loop_engineering.WorkStore.Continued.{started_row, started-latest}
use loop_engineering.WorkStore.Steps.{is_open, IsKept}
use loop_engineering.WorkStore.Keeping.{update-Follows, update-IsKept}

module _ (work : WorkRecord) (p : V2ExecutionPacket) (safe holder pending run : String)
    (seconds : ℕ) (s t : Store) (w : WorkRecord) (row : PacketRow) (c : WorkCheckpoint)
    (leases : List LeaseRow) (kept : IsKept s) where
  abbrev effect : EffectAttempt
  effect = effect_attempt p.plan work.identity p.generation

  -- The packet that is started was open before.
  was_issued :
      StartedFrom work p safe holder pending effect run seconds s t w row c leases
      → (q : PacketRow) → In q s.packets
      → q.packet.identity ≡ p.identity
      → is_open q ≡ true
  unfolding startable find_packet is_open
  was_issued h q m e =
      let (named, generation) =
        started_row work p safe holder pending effect run seconds s t w row c leases h in
      let (latest, found) =
        started-latest work p safe holder pending effect run seconds s t w row c leases h in
      let (n, hit) =
        first-In (λ (o : PacketRow). o.packet.identity == p.identity) s.packets found in
      let same : row ≡ q = kept.unique row q n m (named ∙ sym e) in
      let fits = h.joins.startable in subst (λ o. is_open o ≡ true) same (ground arith)

  pub started-IsKept :
      StartedFrom work p safe holder pending effect run seconds s t w row c leases → IsKept t
  unfolding started_store effect_attempt set_packet_status point_work
  started-IsKept h =
      update-IsKept s p.identity (set_packet_status "STARTED")
        (update_works work.identity (point_work pending) s.works) kept (λ q. refl) (λ q. refl)
        (λ q m e live. was_issued h q m e)
        (update-Follows work.identity (point_work pending) s.works (λ v e. e) (λ v found. refl)) t
        (ap (λ (o : Store). o.packets) h.after) (ap (λ (o : Store). o.works) h.after)
