-- ===== src/WorkStore/Leases.antt =====
-- src/loop_engineering/v2_execution_state.py: who may start and who may finalize a packet.
use Prim.Native.Char.{Char}
use mathlib.Core.Path.{subst}
use loop_engineering.Prelude.{
  ◌≤◌, ◌+◌, String, ℕ, Bool, true, ◌≡◌, inl, inr, Option, some, List, [], ◌∷◌, arith,
}
use loop_engineering.Prelude.{
  ◌==◌, string_eq, nat_eq, option_eq, first, Bool-cases, Option-cases, leb→le,
}
use loop_engineering.WorkState.{WorkRecord}
use loop_engineering.V2EffectReadback.{Digit}
use loop_engineering.WorkStore.{LeaseRow, Store, acquire}
use loop_engineering.WorkStore.Transaction.{is_expired}
use loop_engineering.WorkStore.Plan.{V2ExecutionPacket}
use loop_engineering.WorkStore.Start.{
  start_packet, valid_start, lease_row, started_store, V2PacketStartResult,
}
use loop_engineering.WorkStore.Started.{start-parts, start-StartedFrom}

-- The lease of a work.
unfoldable pub lease_of : String → List LeaseRow → Option LeaseRow
lease_of work leases = first (λ (l : LeaseRow). l.work_identity == work) leases

module _ (may_take : LeaseRow → Bool) (lease : LeaseRow) where
  acquire-lease :
      (leases after : List LeaseRow)
      → acquire may_take lease leases ≡ some after
      → (lease_of lease.work_identity after ≡ some lease)
        × ((l : LeaseRow) → lease_of lease.work_identity leases ≡ some l → may_take l ≡ true)
  unfolding acquire lease_of first
  acquire-lease [] after h = (ground arith, λ l e. absurd (ground arith))
  acquire-lease (l ∷ leases) after h = elim (Bool-cases (l.work_identity == lease.work_identity)) [
    | inl same ↦ elim (Bool-cases (may_take l)) [
      | inl may ↦ (
        ground arith,
        λ m e. let q : l ≡ m = ground arith in subst (λ o. may_take o ≡ true) q may,
      )
      | inr held ↦ absurd (ground arith)
    ]
    | inr other ↦ elim (Option-cases (acquire may_take lease leases)) [
      | inl held ↦ absurd (ground arith)
      | inr (rest, taken) ↦
          let (holds, may) = acquire-lease leases rest taken in
          (ground arith, λ m e. may m (ground arith))
    ]
  ]

valid_start-bounds :
    (work : WorkRecord) (p : V2ExecutionPacket) (safe holder run : String) (seconds : ℕ)
    → valid_start work p safe holder run seconds ≡ true
    → (1 ≤ seconds) × (seconds ≤ 3600)
unfolding valid_start
valid_start-bounds work p safe holder run seconds h =
    (leb→le 1 seconds (ground arith), leb→le seconds 3600 (ground arith))

-- A `start_packet` that succeeds is given between 1 and 3600 seconds, finds the lease of the work expired if
-- there is one, and leaves the work leased to its holder for that time and the packet's generation.
pub start_packet-leases :
    (sha256 : String → String) (digit_of : Char → Digit) (work : WorkRecord) (p : V2ExecutionPacket)
    (safe holder run : String) (seconds : ℕ) (s t : Store) (r : V2PacketStartResult)
    → start_packet sha256 digit_of work p safe holder run seconds s ≡ some (t, some r)
    → (1 ≤ seconds)
      × (seconds ≤ 3600)
      × ((l : LeaseRow) → lease_of work.identity s.leases ≡ some l → l.expires_at ≤ s.now)
      × (lease_of work.identity t.leases
          ≡ some (lease_row work.identity holder p.generation (s.now + seconds)))
unfolding started_store lease_row
start_packet-leases sha256 digit_of work p safe holder run seconds s t r h =
    let (valid, literals, eligible, done) =
      start-parts sha256 digit_of work p safe holder run seconds s t r h in
    let (low, high) = valid_start-bounds work p safe holder run seconds valid in
    let (w, row, c, leases, from) =
      start-StartedFrom sha256 digit_of work p safe holder run seconds s t r h in
    let (holds, expired) =
      acquire-lease (is_expired s.now)
        (lease_row work.identity holder p.generation (s.now + seconds)) s.leases leases
        from.lease in
    let a = from.after in (low, high, λ l e. leb→le l.expires_at s.now (expired l e), ground arith)
