-- ===== src/WorkStore/Completed.antt =====
-- src/loop_engineering/v2_execution_state.py: from the start of a packet to its end.
use Prim.Native.Char.{Char}
use loop_engineering.Prelude.{
  ◌<◌, ◌∙◌, ◌+◌, String, ℕ, true, false, ◌≡◌, refl, ap, some, [], ◌∷◌, ◌++◌, arith,
}
use loop_engineering.Prelude.{
  ◌==◌, is_some, is_empty, string_eq, nat_eq, option_eq, any, count, All,
}
use loop_engineering.WorkState.{WorkRecord, EffectAttempt}
use loop_engineering.V2EffectReadback.{Digit}
use loop_engineering.WorkStore.{
  is_literal, LeaseRow, PacketRow, Store, find_work, find_packet, has_effect, has_checkpoint,
}
use loop_engineering.WorkStore.Records.{settle_effects, record_effect_outcome}
use loop_engineering.WorkStore.Plan.{V2ExecutionPacket, effect_attempt}
use loop_engineering.WorkStore.Execution.{column_literals}
use loop_engineering.WorkStore.Start.{
  start_packet, valid_start, start_literals, lease_row, started_store, set_packet_status,
  point_work, pending_identity, V2PacketStartResult,
}
use loop_engineering.WorkStore.Started.{start-parts, start-StartedFrom}
use loop_engineering.WorkStore.Rows.{find-update}
use loop_engineering.WorkStore.Continued.{started_row, started-latest, started-packet}
use loop_engineering.WorkStore.Leases.{lease_of, start_packet-leases}
use loop_engineering.WorkStore.Finalize.{
  finalize_packet, finalize_terminal, finalize_with, finalize_eligible, finalize_literals,
  terminal_effect_status, is_started, held_by, with_status_of, is_effect_of, only_status,
  final_status, final_identity, finalized_store, is_completed, V2PacketFinalizationResult,
}
use loop_engineering.WorkStore.Confirmed.{found-any, terminal_one, count_one}
use loop_engineering.WorkStore.Finalized.{IsFinalized}
use loop_engineering.WorkStore.Entitled.{finalize_packet-IsEntitled}

module _ (sha256 : String → String) (digit_of : Char → Digit) (work : WorkRecord)
    (p : V2ExecutionPacket) (safe holder run : String) (seconds : ℕ) (s t : Store)
    (r : V2PacketStartResult) where
  abbrev effect : EffectAttempt
  effect = effect_attempt p.plan work.identity p.generation

  abbrev pub running : V2ExecutionPacket
  running = record p { status = "STARTED" }

  -- The effect is settled as confirmed, and time has passed.
  abbrev pub confirmed_store : ℕ → Store
  confirmed_store later = record t {
    effects = settle_effects p.plan.idempotency_key "CONFIRMED" t.effects;
    now = t.now + later;
  }

  -- What a packet needs to be finalized after it was started, beside the outcome of its effect.
  pub record CanEnd (later : ℕ) : Type 0 where
    pub in_time : later < seconds
    pub own_row :
        (q : PacketRow)
        → find_packet p.identity s.packets ≡ some q
        → q.packet.work_identity ≡ work.identity
    pub first_effect : All (λ e. is_effect_of work.identity p.generation e ≡ false) s.effects
    pub literal_point : is_literal (final_identity sha256 running "CONFIRMED") ≡ true
    pub fresh_point :
        has_checkpoint (final_identity sha256 running "CONFIRMED") t.checkpoints ≡ false

  module _ (later : ℕ) (can : CanEnd later)
      (h : start_packet sha256 digit_of work p safe holder run seconds s ≡ some (t, some r)) where
    abbrev u : Store
    u = confirmed_store later

    own : p.work_identity ≡ work.identity
    own =
        let (w, row, c, leases, from) =
          start-StartedFrom sha256 digit_of work p safe holder run seconds s t r h in
        from.own

    own_literal : is_literal work.identity ≡ true
    own_literal =
        let (w, row, c, leases, from) =
          start-StartedFrom sha256 digit_of work p safe holder run seconds s t r h in
        from.literal

    started_effects : t.effects ≡ s.effects ++ (effect ∷ [])
    unfolding started_store
    started_effects =
        let (w, row, c, leases, from) =
          start-StartedFrom sha256 digit_of work p safe holder run seconds s t r h in
        ap (λ (o : Store). o.effects) from.after

    started_now : t.now ≡ s.now
    unfolding started_store
    started_now =
        let (w, row, c, leases, from) =
          start-StartedFrom sha256 digit_of work p safe holder run seconds s t r h in
        ap (λ (o : Store). o.now) from.after

    fresh : has_effect p.plan.idempotency_key s.effects ≡ false
    unfolding effect_attempt
    fresh =
        let (w, row, c, leases, from) =
          start-StartedFrom sha256 digit_of work p safe holder run seconds s t r h in
        from.fresh

    effect_own : is_effect_of work.identity p.generation effect ≡ true
    unfolding is_effect_of effect_attempt
    effect_own = ground arith

    effect_keyed : effect.idempotency_key ≡ p.plan.idempotency_key
    unfolding effect_attempt
    effect_keyed = refl

    effect_intended : effect.status ≡ "INTENT_RECORDED"
    unfolding effect_attempt
    effect_intended = refl

    confirmed_status :
        terminal_effect_status p.work_identity p.generation u ≡ some (some "CONFIRMED")
    unfolding terminal_effect_status only_status
    confirmed_status =
        let one =
          terminal_one p.plan.idempotency_key work.identity p.generation effect effect_keyed
            effect_own effect_intended s.effects fresh can.first_effect in
        let e = started_effects in let o = own in let l = own_literal in ground arith

    confirmed_one : count (with_status_of running "CONFIRMED") u.effects ≡ 1
    confirmed_one =
        let one =
          count_one p.plan.idempotency_key work.identity p.generation effect effect_keyed effect_own
            effect_intended running own refl s.effects fresh can.first_effect in
        let e = started_effects in ground arith

    held : any (held_by running holder u.now) u.leases ≡ true
    unfolding held_by lease_of lease_row
    held =
        let (low, high, expired, has) =
          start_packet-leases sha256 digit_of work p safe holder run seconds s t r h in
        let n = started_now in
        let soon = can.in_time in
        let o = own in
        found-any (λ (l : LeaseRow). l.work_identity == work.identity)
          (held_by running holder u.now) t.leases
          (lease_row work.identity holder p.generation (s.now + seconds)) has ground arith

    row_started : any (is_started running) u.packets ≡ true
    unfolding is_started find_packet set_packet_status
    row_started =
        let (w, row, c, leases, from) =
          start-StartedFrom sha256 digit_of work p safe holder run seconds s t r h in
        let (named, of_generation) =
          started_row work p safe holder (pending_identity sha256 p) effect run seconds s t w row c
            leases from in
        let found =
          (started-latest work p safe holder (pending_identity sha256 p) effect run seconds s t w
            row c leases from).1 in
        let after =
          started-packet work p safe holder (pending_identity sha256 p) effect run seconds s t w row
            c leases from in
        let of_work = can.own_row row found in
        let o = own in
        found-any (λ (q : PacketRow). q.packet.identity == p.identity) (is_started running)
          t.packets (record row { packet = set_packet_status "STARTED" row.packet }) after
          (ground arith)

    work_there : is_some (find_work p.work_identity u.works) ≡ true
    unfolding started_store point_work
    work_there =
        let (w, row, c, leases, from) =
          start-StartedFrom sha256 digit_of work p safe holder run seconds s t r h in
        let f =
          find-update work.identity (point_work (pending_identity sha256 p)) s.works (λ v e. e) in
        let found = from.joins.found in let a = from.after in let o = own in ground arith

    literals :
        finalize_literals running holder run (final_identity sha256 running "CONFIRMED") ≡ true
    unfolding finalize_literals start_literals column_literals
    literals =
        let (valid, written, eligible, done) =
          start-parts sha256 digit_of work p safe holder run seconds s t r h in
        let o = own in let l = can.literal_point in ground arith

    eligible : finalize_eligible running holder "CONFIRMED" u ≡ true
    unfolding finalize_eligible
    eligible =
        let a = row_started in
        let b = work_there in let c = held in let d = confirmed_one in ground arith

    given : (is_empty holder ≡ false) × (is_empty run ≡ false)
    unfolding valid_start
    given =
        let (valid, written, eligible, done) =
          start-parts sha256 digit_of work p safe holder run seconds s t r h in
        (ground arith, ground arith)

    ended :
        (v : Store) × (o : V2PacketFinalizationResult) × (finalize_packet sha256 running holder run
            u
          ≡ some (v, some o))
        × (o.packet_status ≡ "COMPLETED")
    unfolding finalize_packet finalize_terminal finalize_with final_status
    ended =
        let a = eligible in
        let b = literals in
        let c = confirmed_status in
        let d = can.fresh_point in
        let (e, g) = given in
        let c' = final_identity sha256 running "CONFIRMED" in
        let v = finalized_store running run c' "CONFIRMED" u in
        (
          v,
          record {
            packet_status = final_status "CONFIRMED";
            effect_status = "CONFIRMED";
            checkpoint_identity = c';
            work_completed = is_completed (find_work p.work_identity v.works);
          },
          ground arith,
          ground arith,
        )

  settled_store :
      (u : Store) (later : ℕ)
      → record_effect_outcome p.plan.idempotency_key "CONFIRMED" t ≡ some u
      → record u { now = u.now + later } ≡ confirmed_store later
  unfolding record_effect_outcome
  settled_store u later h = ground arith

  -- A packet that was started can be brought to its end: when its effect is then recorded as CONFIRMED, and
  -- less than the seconds of the lease go by, `finalize_packet` of the same holder succeeds and answers that
  -- the packet is COMPLETED, and so it is in the store after it, with the other rows of the packets, the effects
  -- and the leases as they were. The conditions are that the stored packet is of the work, that the work had no
  -- effect of the generation before, and that the identity of the final checkpoint is a literal of which there
  -- is no checkpoint yet.
  pub finalize_packet-ends :
      (u : Store) (later : ℕ)
      → start_packet sha256 digit_of work p safe holder run seconds s ≡ some (t, some r)
      → record_effect_outcome p.plan.idempotency_key "CONFIRMED" t ≡ some u
      → CanEnd later
      → (v : Store) × (o : V2PacketFinalizationResult) × (finalize_packet sha256 running holder run
            (record u { now = u.now + later })
          ≡ some (v, some o))
        × (o.packet_status ≡ "COMPLETED")
        × IsFinalized running (record u { now = u.now + later }) v o
  finalize_packet-ends after later starts settles can =
      let same = settled_store after later settles in
      let (v, o, done, completed) = ended later can starts in
      let ends = ap (finalize_packet sha256 running holder run) same ∙ done in
      (
        v,
        o,
        ends,
        completed,
        (finalize_packet-IsEntitled running holder run (record after { now = after.now + later }) v
            o sha256 ends).1,
      )
