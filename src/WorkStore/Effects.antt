-- ===== src/WorkStore/Effects.antt =====
-- src/loop_engineering/work_state.py and v2_execution_state.py: what the statements do to the table of effects.
use Prim.Native.Char.{Char}
use mathlib.Core.Path.{subst}
use loop_engineering.Prelude.{
  ◌∙◌, String, ℕ, Bool, ◌≡◌, refl, sym, ap, inl, inr, Option, none, some, List, arith, ◌+◌, ◌||◌,
}
use loop_engineering.Prelude.{◌==◌, string_eq, In, Bool-cases, is_some}
use loop_engineering.WorkState.{WorkRecord, WorkCheckpoint, EffectAttempt}
use loop_engineering.V2EffectReadback.{Digit}
use loop_engineering.WorkStore.{LeaseRow, Store, find_work, has_effect, acquire}
use loop_engineering.WorkStore.Transaction.{is_expired}
use loop_engineering.WorkStore.Records.{
  has_work, record_effect_outcome, record_effect_intent, record_checkpoint, upsert_work,
}
use loop_engineering.WorkStore.Plan.{V2PacketPlan, V2ExecutionPacket, effect_attempt}
use loop_engineering.WorkStore.Cutover.{migrate_candidate}
use loop_engineering.WorkStore.Issue.{
  issue_packet, issued_store, planned_packet, issued_identity, V2PacketIssueResult,
}
use loop_engineering.WorkStore.Issued.{issue-IsIssued}
use loop_engineering.WorkStore.Start.{started_store, start_packet, lease_row, V2PacketStartResult}
use loop_engineering.WorkStore.Started.{start-StartedFrom}
use loop_engineering.WorkStore.Finalize.{
  finalized_store, finalize_with, finalize_eligible, finalize_terminal, finalize_packet,
  final_identity, terminal_effect_status, acquire_terminal_lease, terminal_leased, release_lease,
  V2PacketFinalizationResult,
}
use loop_engineering.WorkStore.Steps.{
  Step, Reach, stay, next, migrate, issue, start, finalize, lease, release, settle, intend,
  checkpoint, synchronize, wait,
}
use loop_engineering.WorkStore.Reached.{issue_cases, start_none}
use loop_engineering.WorkStore.Growing.{
  Grown, unchanged, added, Stays, In-Stays, Stays-trans, Keyed, Grown-Keyed,
}

kept-Grown : (es fs : List EffectAttempt) → fs ≡ es → Grown es fs
kept-Grown es fs e = subst (Grown es) (sym e) unchanged

module _ (s t : Store) where
  abbrev Grows : Type 0
  Grows = Grown s.effects t.effects

  kept : t.effects ≡ s.effects → Grows
  kept = kept-Grown s.effects t.effects

  migrate-Grows : (work : WorkRecord) (b : Bool) → migrate_candidate work s ≡ some (t, b) → Grows
  unfolding migrate_candidate
  migrate-Grows work b h = elim (Bool-cases (is_some (find_work work.identity s.works))) [
    | inl known ↦ kept (ground arith)
    | inr missing ↦ kept (ground arith)
  ]

  leased : (o : Option (List LeaseRow)) → (terminal_leased s o).0.effects ≡ s.effects
  unfolding terminal_leased
  leased none = refl
  leased (some ls) = refl

  lease-Grows :
      (work : String) (generation : ℕ) (holder : String) (seconds : ℕ) (b : Bool)
      → acquire_terminal_lease work generation holder seconds s ≡ some (t, b)
      → Grows
  unfolding acquire_terminal_lease
  lease-Grows work generation holder seconds b h =
      let l = leased (
        acquire (λ (l : LeaseRow). is_expired s.now l || l.holder_identity == holder)
          (lease_row work holder generation (s.now + seconds)) s.leases) in
      kept (ground arith)

  release-Grows : (work holder : String) → release_lease work holder s ≡ some t → Grows
  unfolding release_lease
  release-Grows work holder h = kept (ground arith)

  settle-Grows : (key status : String) → record_effect_outcome key status s ≡ some t → Grows
  unfolding record_effect_outcome
  settle-Grows key status h = subst (Grown s.effects) (ground arith) (Grown.settled key status)

  intend-Grows :
      (attempt : EffectAttempt) (b : Bool) → record_effect_intent attempt s ≡ some (t, b) → Grows
  unfolding record_effect_intent
  intend-Grows attempt b h = elim (Bool-cases (has_effect attempt.idempotency_key s.effects)) [
    | inl known ↦ kept (ground arith)
    | inr new ↦ subst (Grown s.effects) (ground arith) (added attempt new)
  ]

  checkpoint-Grows : (point : WorkCheckpoint) → record_checkpoint point s ≡ some t → Grows
  unfolding record_checkpoint
  checkpoint-Grows point h = kept (ground arith)

  upsert-Grows : (work : WorkRecord) → upsert_work work s ≡ some t → Grows
  unfolding upsert_work
  upsert-Grows work h = elim (Bool-cases (has_work work.identity s.works)) [
    | inl known ↦ kept (ground arith)
    | inr missing ↦ kept (ground arith)
  ]

  finalize_with-Grows :
      (p : V2ExecutionPacket) (holder run c status : String) (r : Option V2PacketFinalizationResult)
      → finalize_with p holder run c status s ≡ some (t, r)
      → Grows
  unfolding finalize_with finalized_store
  finalize_with-Grows p holder run c status r h =
      elim (Bool-cases (finalize_eligible p holder status s)) [
        | inl eligible ↦ kept (ground arith)
        | inr other ↦ kept (ground arith)
      ]

  finalize_terminal-Grows :
      (sha256 : String → String) (p : V2ExecutionPacket) (holder run : String)
      (r : Option V2PacketFinalizationResult) (o : Option (Option String))
      → finalize_terminal sha256 p holder run s o ≡ some (t, r)
      → Grows
  unfolding finalize_terminal
  finalize_terminal-Grows sha256 p holder run r none h = absurd (ground arith)
  finalize_terminal-Grows sha256 p holder run r (some none) h = kept (ground arith)
  finalize_terminal-Grows sha256 p holder run r (some (some status)) h =
      finalize_with-Grows p holder run (final_identity sha256 p status) status r h

  finalize-Grows :
      (sha256 : String → String) (p : V2ExecutionPacket) (holder run : String)
      (r : Option V2PacketFinalizationResult)
      → finalize_packet sha256 p holder run s ≡ some (t, r)
      → Grows
  unfolding finalize_packet
  finalize-Grows sha256 p holder run r h =
      finalize_terminal-Grows sha256 p holder run r
        (terminal_effect_status p.work_identity p.generation s) (ground arith)

  issued_store-effects :
      (work : WorkRecord) (p : V2ExecutionPacket) (run c : String)
      → (issued_store work p run c s).effects ≡ s.effects
  unfolding issued_store
  issued_store-effects work p run c = refl

  module _ (sha256 : String → String) (digit_of : Char → Digit) where
    issue-Grows :
        (work : WorkRecord) (generation : ℕ) (plan : V2PacketPlan) (run : String)
        (o : Option V2PacketIssueResult)
        → issue_packet sha256 digit_of work generation plan run s ≡ some (t, o)
        → Grows
    unfolding planned_packet
    issue-Grows work generation plan run o h =
        let p = planned_packet sha256 work generation plan in
        elim (issue_cases sha256 digit_of work generation plan run s t o h) [
          | inl same ↦ kept (ap (λ (q : Store). q.effects) same)
          | inr (r, answered, new) ↦
              let (positive, (w, issued)) =
                issue-IsIssued sha256 digit_of work generation plan run s t r
                  (h ∙ ap (λ a. some (t, a)) answered) new in
              kept (
                ap (λ (q : Store). q.effects) issued.after
                ∙ issued_store-effects work p run (issued_identity sha256 p))
        ]

    start-Grows :
        (work : WorkRecord) (p : V2ExecutionPacket) (safe holder run : String) (seconds : ℕ)
        (o : Option V2PacketStartResult)
        → start_packet sha256 digit_of work p safe holder run seconds s ≡ some (t, o)
        → Grows
    unfolding started_store
    start-Grows work p safe holder run seconds none h = kept (
        ap (λ (q : Store). q.effects)
          (start_none sha256 digit_of work p safe holder run seconds s t h))
    start-Grows work p safe holder run seconds (some r) h =
        let (w, row, c, leases, from) =
          start-StartedFrom sha256 digit_of work p safe holder run seconds s t r h in
        subst (Grown s.effects) (sym (ap (λ (q : Store). q.effects) from.after))
          (added (effect_attempt p.plan work.identity p.generation) from.fresh)

module _ (sha256 : String → String) (digit_of : Char → Digit) where
  step-Grows : (s t : Store) → Step sha256 digit_of s t → Grows s t
  step-Grows s t (migrate work b h) = migrate-Grows s t work b h
  step-Grows s t (issue work generation plan run r h) =
      issue-Grows s t sha256 digit_of work generation plan run r h
  step-Grows s t (start work p safe holder run seconds r h) =
      start-Grows s t sha256 digit_of work p safe holder run seconds r h
  step-Grows s t (finalize p holder run r h) = finalize-Grows s t sha256 p holder run r h
  step-Grows s t (lease work generation holder seconds b h) =
      lease-Grows s t work generation holder seconds b h
  step-Grows s t (release work holder h) = release-Grows s t work holder h
  step-Grows s t (settle key status h) = settle-Grows s t key status h
  step-Grows s t (intend attempt b h) = intend-Grows s t attempt b h
  step-Grows s t (checkpoint point h) = checkpoint-Grows s t point h
  step-Grows s t (synchronize work points h) = upsert-Grows s t work h
  step-Grows s t (wait seconds) = unchanged

  -- After any statements of the step relation, in any order, every effect of the store before them is there:
  -- its row differs at most in its status, and is the same row where its outcome was known, that is, where
  -- its status was neither INTENT_RECORDED nor UNCERTAIN. And where no two effects had one idempotency key,
  -- no two effects have one.
  pub Reach-one_effect :
      (s t : Store)
      → Reach sha256 digit_of s t
      → Keyed s.effects
      → Keyed t.effects × ((e : EffectAttempt) → In e s.effects → Stays e t.effects)
  Reach-one_effect s t stay keyed = (keyed, λ e m. In-Stays e s.effects m)
  Reach-one_effect s t (next {t = u} reach step) keyed =
      let (once, there_still) = Reach-one_effect s u reach keyed in
      let g = step-Grows u t step in
      (
        Grown-Keyed u.effects t.effects g once,
        λ e m. Stays-trans e u.effects t.effects g (there_still e m),
      )
