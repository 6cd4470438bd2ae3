-- ===== src/WorkStore/Started.antt =====
-- src/loop_engineering/v2_execution_state.py: what a `start_packet` that succeeded found in the store.
use Prim.Native.Char.{Char}
use loop_engineering.Prelude.{String, ℕ, true, false, ◌≡◌, inl, inr, Option, some, List, arith, ◌+◌}
use loop_engineering.Prelude.{string_eq, option_eq, nat_eq, Option-cases}
use loop_engineering.WorkState.{WorkRecord, WorkCheckpoint, EffectAttempt}
use loop_engineering.V2EffectReadback.{Digit}
use loop_engineering.WorkStore.{
  is_literal, PacketRow, LeaseRow, Store, find_work, find_packet, find_checkpoint, has_pending,
  has_checkpoint, has_effect, acquire,
}
use loop_engineering.WorkStore.Recovery.{by_identity}
use loop_engineering.WorkStore.Transaction.{is_expired}
use loop_engineering.WorkStore.Plan.{V2ExecutionPacket, effect_attempt}
use loop_engineering.WorkStore.Start.{
  startable, start_joined, start_found, start_eligible, started_store, started, lease_row,
  start_literals, valid_start, pending_identity, start_packet, V2PacketStartResult,
}

-- The rows that a start joins.
pub record Joins (work : WorkRecord) (p : V2ExecutionPacket) (safe : String) (s : Store)
    (w : WorkRecord) (row : PacketRow) (c : WorkCheckpoint) : Type 0 where
  pub found : find_work work.identity s.works ≡ some w
  pub packet : by_identity (λ id. find_packet id s.packets) w.latest_task_packet_identity ≡ some row
  pub point :
      by_identity (λ id. find_checkpoint id s.checkpoints) w.latest_checkpoint_identity ≡ some c
  pub startable : startable work p safe w row c ≡ true

module _ (work : WorkRecord) (p : V2ExecutionPacket) (safe : String) (s : Store) where
  joined-Joins :
      (w : WorkRecord)
      → find_work work.identity s.works ≡ some w
      → start_joined work p safe w
          (by_identity (λ id. find_packet id s.packets) w.latest_task_packet_identity)
          (by_identity (λ id. find_checkpoint id s.checkpoints) w.latest_checkpoint_identity)
        ≡ true
      → (row : PacketRow) × (c : WorkCheckpoint) × Joins work p safe s w row c
  unfolding start_joined
  joined-Joins w found h =
      let op = by_identity (λ id. find_packet id s.packets) w.latest_task_packet_identity in
      let oc = by_identity (λ id. find_checkpoint id s.checkpoints) w.latest_checkpoint_identity in
      elim (Option-cases op) [
        | inl missing ↦ absurd (ground arith)
        | inr (row, packet) ↦ elim (Option-cases oc) [
          | inl missing ↦ absurd (ground arith)
          | inr (c, point) ↦ (
            row,
            c,
            record { found = found; packet = packet; point = point; startable = ground arith },
          )
        ]
      ]

  found-Joins :
      start_found work p safe s (find_work work.identity s.works) ≡ true
      → (w : WorkRecord) × (row : PacketRow) × (c : WorkCheckpoint) × Joins work p safe s w row c
  unfolding start_found
  found-Joins h = elim (Option-cases (find_work work.identity s.works)) [
    | inl missing ↦ absurd (ground arith)
    | inr (w, found) ↦
        let (row, c, joins) = joined-Joins w found (ground arith) in (w, row, c, joins)
  ]

-- What was there when a packet was started, and the store after it.
pub record StartedFrom (work : WorkRecord) (p : V2ExecutionPacket) (safe holder pending : String)
    (effect : EffectAttempt) (run : String) (seconds : ℕ) (s s' : Store) (w : WorkRecord)
    (row : PacketRow) (c : WorkCheckpoint) (leases : List LeaseRow) : Type 0 where
  pub joins : Joins work p safe s w row c
  pub quiet : has_pending work.identity s.effects ≡ false
  pub fresh : has_effect effect.idempotency_key s.effects ≡ false
  pub fresh_point : has_checkpoint pending s.checkpoints ≡ false
  pub own : p.work_identity ≡ work.identity
  pub literal : is_literal work.identity ≡ true
  pub lease :
      acquire
        (is_expired s.now)
        (lease_row work.identity holder p.generation (s.now + seconds))
        s.leases
      ≡ some leases
  pub after : s' ≡ started_store work p pending effect run leases s

module _ (sha256 : String → String) (digit_of : Char → Digit) (work : WorkRecord)
    (p : V2ExecutionPacket) (safe holder run : String) (seconds : ℕ) (s s' : Store)
    (r : V2PacketStartResult) where
  abbrev pending : String
  pending = pending_identity sha256 p

  abbrev effect : EffectAttempt
  effect = effect_attempt p.plan work.identity p.generation

  abbrev taken : Option (List LeaseRow)
  taken =
      acquire (is_expired s.now) (lease_row work.identity holder p.generation (s.now + seconds))
        s.leases

  pub start-parts :
      start_packet sha256 digit_of work p safe holder run seconds s ≡ some (s', some r)
      → (valid_start work p safe holder run seconds ≡ true)
        × (start_literals work p safe pending holder run ≡ true)
        × (start_eligible work p safe pending effect s ≡ true)
        × (started work p pending effect run s taken ≡ (s', some r))
  unfolding start_packet
  start-parts h = ground arith

  start-literal :
      start_literals work p safe pending holder run ≡ true → is_literal work.identity ≡ true
  unfolding start_literals
  start-literal h = ground arith

  start-own : valid_start work p safe holder run seconds ≡ true → p.work_identity ≡ work.identity
  unfolding valid_start
  start-own h = ground arith

  start-guards :
      start_eligible work p safe pending effect s ≡ true
      → (start_found work p safe s (find_work work.identity s.works) ≡ true)
        × (has_pending work.identity s.effects ≡ false)
        × (has_effect effect.idempotency_key s.effects ≡ false)
        × (has_checkpoint pending s.checkpoints ≡ false)
  unfolding start_eligible
  start-guards h = ground arith

  pub start-StartedFrom :
      start_packet sha256 digit_of work p safe holder run seconds s ≡ some (s', some r)
      → (w : WorkRecord) × (row : PacketRow) × (c : WorkCheckpoint) × (leases : List LeaseRow)
        × StartedFrom work p safe holder pending effect run seconds s s' w row c leases
  unfolding started
  start-StartedFrom h =
      let (valid, literals, eligible, done) = start-parts h in
      let (joined, quiet, fresh, fresh_point) = start-guards eligible in
      let (w, row, c, joins) = found-Joins work p safe s joined in
      elim (Option-cases taken) [
        | inl held ↦ absurd (ground arith)
        | inr (leases, lease) ↦ (
          w,
          row,
          c,
          leases,
          record {
            joins = joins;
            quiet = quiet;
            fresh = fresh;
            fresh_point = fresh_point;
            own = start-own valid;
            literal = start-literal literals;
            lease = lease;
            after = ground arith;
          },
        )
      ]
