-- ===== src/WorkStore/Entitled.antt =====
-- src/loop_engineering/v2_execution_state.py: who may finalize a packet, and as what.
use mathlib.Core.Path.{subst}
use text.Mathlib.TextEquality.{eq_iff}
use loop_engineering.Prelude.{
  ◌<◌, ◌⊎◌, ◌&&◌, String, ℕ, true, ◌≡◌, refl, sym, inl, inr, Option, none, some, List, [], ◌∷◌,
  arith,
}
use loop_engineering.Prelude.{
  ◌==◌, first, is_some, Bool-cases, Option-cases, string_eq, nat_eq, option_eq, any, count, keep,
  In, here, any-In, keep-In,
}
use loop_engineering.WorkState.{EffectAttempt}
use loop_engineering.WorkStore.{LeaseRow, PacketRow, Store, find_work, find_packet}
use loop_engineering.WorkStore.Plan.{V2ExecutionPacket}
use loop_engineering.WorkStore.Finalize.{
  finalize_packet, finalize_terminal, finalize_with, finalize_eligible, terminal_effect_status,
  is_started, held_by, with_status_of, is_terminal_of, only_status, final_status, final_identity,
  final_work, finalized_store, closes_issue, is_completed, V2PacketFinalizationResult,
}
use loop_engineering.WorkStore.Finalized.{
  IsFinalized, finalized-packet, finalized-others, finalized-effects, finalized-leases,
  finalized-work,
}

-- A live lease of the work, held for the packet's generation.
pub record IsHeld (p : V2ExecutionPacket) (holder : String) (now : ℕ) (l : LeaseRow) : Type 0 where
  pub work : l.work_identity ≡ p.work_identity
  pub holder_same : l.holder_identity ≡ holder
  pub generation : l.packet_generation ≡ p.generation
  pub live : now < l.expires_at

held_by-IsHeld :
    (p : V2ExecutionPacket) (holder : String) (now : ℕ) (l : LeaseRow)
    → held_by p holder now l ≡ true
    → IsHeld p holder now l
unfolding held_by
held_by-IsHeld p holder now l h = record {
  work = ground arith;
  holder_same = ground arith;
  generation = ground arith;
  live = ground arith;
}

-- What `finalize_packet` finds in the store before it.
pub record IsEntitled (p : V2ExecutionPacket) (holder : String) (s : Store)
    (effect_status packet_status : String) : Type 0 where
  pub lease : (l : LeaseRow) × In l s.leases × IsHeld p holder s.now l
  pub packet :
      (row : PacketRow) × In row s.packets
      × (row.packet.identity ≡ p.identity)
      × (row.packet.generation ≡ p.generation)
      × (row.packet.status ≡ "STARTED")
  pub effect : count (with_status_of p effect_status) s.effects ≡ 1
  pub outcome :
      ((effect_status ≡ "CONFIRMED") × (packet_status ≡ "COMPLETED"))
      ⊎ ((effect_status ≡ "NO_EFFECT") × (packet_status ≡ "SUPERSEDED"))

eligible_parts :
    (p : V2ExecutionPacket) (holder status : String) (s : Store)
    → finalize_eligible p holder status s ≡ true
    → (any (is_started p) s.packets ≡ true)
      × (any (held_by p holder s.now) s.leases ≡ true)
      × (count (with_status_of p status) s.effects ≡ 1)
      × (is_some (find_work p.work_identity s.works) ≡ true)
unfolding finalize_eligible
eligible_parts p holder status s h = (ground arith, ground arith, ground arith, ground arith)

started-found :
    (p : V2ExecutionPacket) (packets : List PacketRow)
    → any (is_started p) packets ≡ true
    → (q : PacketRow) × (find_packet p.identity packets ≡ some q)
unfolding any is_started find_packet first
started-found p [] h = absurd (ground arith)
started-found p (q ∷ packets) h = elim (Bool-cases (q.packet.identity == p.identity)) [
  | inl same ↦ (q, ground arith)
  | inr apart ↦ let (o, found) = started-found p packets (ground arith) in (o, ground arith)
]

started_parts :
    (p : V2ExecutionPacket) (row : PacketRow)
    → is_started p row ≡ true
    → (row.packet.identity ≡ p.identity)
      × (row.packet.generation ≡ p.generation)
      × (row.packet.status ≡ "STARTED")
unfolding is_started
started_parts p row h = (ground arith, ground arith, ground arith)

final_outcome :
    (status : String)
    → (status ≡ "CONFIRMED") ⊎ (status ≡ "NO_EFFECT")
    → ((status ≡ "CONFIRMED") × (final_status status ≡ "COMPLETED"))
      ⊎ ((status ≡ "NO_EFFECT") × (final_status status ≡ "SUPERSEDED"))
unfolding final_status
final_outcome status (inl e) = inl (e, ground arith)
final_outcome status (inr e) = inr (e, ground (arith, eq_iff "NO_EFFECT" "CONFIRMED"))

terminal_either :
    (e : EffectAttempt) (work : String) (generation : ℕ)
    → is_terminal_of work generation e ≡ true
    → (e.status ≡ "CONFIRMED") ⊎ (e.status ≡ "NO_EFFECT")
unfolding is_terminal_of
terminal_either e work generation h = elim (string_eq.dec e.status "CONFIRMED") [
  | yes q ↦ inl q
  | no n ↦ inr (ground arith)
]

only_terminal :
    (work : String) (generation : ℕ) (effects : List EffectAttempt) (status : String)
    → (kept : List EffectAttempt) → keep (is_terminal_of work generation) effects ≡ kept
    → only_status kept ≡ some status
    → (status ≡ "CONFIRMED") ⊎ (status ≡ "NO_EFFECT")
unfolding only_status
only_terminal work generation effects status [] e h = absurd (ground arith)
only_terminal work generation effects status (x ∷ []) e h =
    let (m, passes) =
      keep-In (is_terminal_of work generation) effects (subst (In x) (sym e) (here refl)) in
    let named : x.status ≡ status = ground arith in
    subst (λ st. (st ≡ "CONFIRMED") ⊎ (st ≡ "NO_EFFECT")) named
      (terminal_either x work generation passes)
only_terminal work generation effects status (x ∷ y ∷ rest) e h = absurd (ground arith)

module _ (p : V2ExecutionPacket) (holder run : String) (s t : Store)
    (r : V2PacketFinalizationResult) where
  with_parts :
      (c status : String)
      → finalize_with p holder run c status s ≡ some (t, some r)
      → (finalize_eligible p holder status s ≡ true)
        × (r.effect_status ≡ status)
        × (r.packet_status ≡ final_status status)
        × (r.checkpoint_identity ≡ c)
        × (r.work_completed
            ≡ is_completed (find_work p.work_identity (finalized_store p run c status s).works))
        × (t ≡ finalized_store p run c status s)
  unfolding finalize_with
  with_parts c status h =
      (ground arith, ground arith, ground arith, ground arith, ground arith, ground arith)

  with-IsFinalized :
      (c status : String)
      → finalize_with p holder run c status s ≡ some (t, some r)
      → IsFinalized p s t r
  unfolding is_completed final_work
  with-IsFinalized c status h =
      let (eligible, effect_same, packet_same, point_same, completed, after) =
        with_parts c status h in
      let (started, held, one, known) = eligible_parts p holder status s eligible in
      let (q, found) = started-found p s.packets started in
      let packet = finalized-packet p run c status s q found in
      elim (Option-cases (find_work p.work_identity s.works)) [
        | inl missing ↦ absurd (ground arith)
        | inr (w, has) ↦
            let work = finalized-work p run c status s w has in
            let v = final_work (status == "CONFIRMED" && closes_issue p s.packets) c w in
            record {
              packet = (q, found, ground arith);
              others =
                  λ id differ. let o = finalized-others p run c status s id differ in ground arith;
              effects = finalized-effects p run c status s t after;
              leases = finalized-leases p run c status s t after;
              work = (
                w,
                v,
                has,
                ground arith,
                ground arith,
                ground arith,
                (λ e. ground arith, λ e. ground arith),
                elim (Bool-cases (status == "CONFIRMED" && closes_issue p s.packets)) [
                  | inl yes_closed ↦ inr (ground arith, ground arith)
                  | inr stays ↦ inl (ground arith)
                ],
              );
            }
      ]

  with-IsEntitled :
      (c status : String)
      → (status ≡ "CONFIRMED") ⊎ (status ≡ "NO_EFFECT")
      → finalize_with p holder run c status s ≡ some (t, some r)
      → IsEntitled p holder s r.effect_status r.packet_status
  with-IsEntitled c status definite h =
      let (eligible, effect_same, packet_same, point_same, completed, after) =
        with_parts c status h in
      let (started, held, one, known) = eligible_parts p holder status s eligible in
      let (row, m, fits) = any-In (is_started p) s.packets started in
      let (named, of_generation, is_live) = started_parts p row fits in
      let (l, n, holds) = any-In (held_by p holder s.now) s.leases held in
      subst (λ st. IsEntitled p holder s st r.packet_status) (sym effect_same)
        (subst (IsEntitled p holder s status) (sym packet_same) (record {
          lease = (l, n, held_by-IsHeld p holder s.now l holds);
          packet = (row, m, named, of_generation, is_live);
          effect = one;
          outcome = final_outcome status definite;
        }))

  terminal-IsEntitled :
      (sha256 : String → String) (o : Option (Option String))
      → terminal_effect_status p.work_identity p.generation s ≡ o
      → finalize_terminal sha256 p holder run s o ≡ some (t, some r)
      → IsEntitled p holder s r.effect_status r.packet_status × IsFinalized p s t r
  unfolding finalize_terminal terminal_effect_status
  terminal-IsEntitled sha256 none e h = absurd (ground arith)
  terminal-IsEntitled sha256 (some none) e h = absurd (ground arith)
  terminal-IsEntitled sha256 (some (some status)) e h = (
    with-IsEntitled (final_identity sha256 p status) status
        (only_terminal p.work_identity p.generation s.effects status
          (keep (is_terminal_of p.work_identity p.generation) s.effects) refl (ground arith))
        h,
    with-IsFinalized (final_identity sha256 p status) status h,
  )

  -- A `finalize_packet` that succeeds finds a live lease of the work held by its holder for the packet's
  -- generation, the packet started, and exactly one effect of the work and generation with the status that it
  -- answers; the answered status of the packet is COMPLETED for a confirmed effect, and SUPERSEDED for one
  -- without effect. In the store after it the row of the packet has this status and is otherwise as it was,
  -- every packet of another identity, the effects and the leases are as they were, and the row of the work
  -- points to the answered checkpoint and the same packet, and is COMPLETED exactly when the answer says that
  -- the work is completed; its lifecycle is as it was, or COMPLETED for a confirmed effect.
  pub finalize_packet-IsEntitled :
      (sha256 : String → String)
      → finalize_packet sha256 p holder run s ≡ some (t, some r)
      → IsEntitled p holder s r.effect_status r.packet_status × IsFinalized p s t r
  unfolding finalize_packet
  finalize_packet-IsEntitled sha256 h =
      terminal-IsEntitled sha256 (terminal_effect_status p.work_identity p.generation s) refl
        (ground arith)
