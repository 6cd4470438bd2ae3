-- ===== src/WorkStore/Reached.antt =====
-- src/loop_engineering/v2_execution_state.py: what holds of the packets after the statements of V2 code.
use Prim.Native.Char.{Char}
use mathlib.Core.Path.{subst}
use loop_engineering.Prelude.{
  ◌⊎◌, ◌∙◌, String, ℕ, true, false, ◌≡◌, refl, sym, ap, inl, inr, Option, none, some, List, [],
  arith, ◌+◌,
}
use loop_engineering.Prelude.{string_eq, nat_eq, option_eq, In, Bool-cases}
use loop_engineering.WorkState.{WorkRecord, EffectAttempt}
use loop_engineering.V2EffectReadback.{Digit}
use loop_engineering.WorkStore.{PacketRow, LeaseRow, Store, find_work, acquire}
use loop_engineering.WorkStore.Transaction.{is_expired}
use loop_engineering.WorkStore.Plan.{V2PacketPlan, V2ExecutionPacket, effect_attempt}
use loop_engineering.WorkStore.Execution.{packet}
use loop_engineering.WorkStore.Issue.{
  issue_packet, issue_eligible, issue_eligible_packet, reissued, planned_packet, issued_identity,
  V2PacketIssueResult,
}
use loop_engineering.WorkStore.Start.{
  started, start_packet, start_eligible, pending_identity, lease_row, V2PacketStartResult,
}
use loop_engineering.WorkStore.Issued.{issue-IsIssued}
use loop_engineering.WorkStore.Started.{start-StartedFrom}
use loop_engineering.WorkStore.Steps.{
  Step, Reach, stay, next, migrate, issue, start, finalize, lease, release, settle, intend,
  checkpoint, synchronize, wait, is_open, IsKept,
}
use loop_engineering.WorkStore.Opened.{issued-IsKept}
use loop_engineering.WorkStore.Begun.{started-IsKept}
use loop_engineering.WorkStore.Preserved.{
  same-IsKept, migrate-IsKept, release-IsKept, lease-IsKept, settle-IsKept, intend-IsKept,
  checkpoint-IsKept, upsert-IsKept, finalize-IsKept,
}

reissued_same :
    (p : V2ExecutionPacket) (c : String) (s t : Store) (r : Option V2PacketIssueResult)
    (o : Option (Option V2ExecutionPacket))
    → reissued p c s o ≡ some (t, r)
    → t ≡ s
unfolding reissued
reissued_same p c s t r none h = absurd (ground arith)
reissued_same p c s t r (some none) h = ground arith
reissued_same p c s t r (some (some e)) h = ground arith

held_same :
    (work : WorkRecord) (p : V2ExecutionPacket) (pending : String) (effect : EffectAttempt)
    (run : String) (s t : Store) (o : Option (List LeaseRow))
    → started work p pending effect run s o ≡ (t, none)
    → t ≡ s
unfolding started
held_same work p pending effect run s t none h = ground arith
held_same work p pending effect run s t (some ls) h = absurd (ground arith)

module _ (sha256 : String → String) (digit_of : Char → Digit) where
  -- A call issues a new packet or leaves the store.
  pub issue_cases :
      (work : WorkRecord) (generation : ℕ) (plan : V2PacketPlan) (run : String) (s t : Store)
      (o : Option V2PacketIssueResult)
      → issue_packet sha256 digit_of work generation plan run s ≡ some (t, o)
      → (t ≡ s) ⊎ ((r : V2PacketIssueResult) × (o ≡ some r) × (r.already_issued ≡ false))
  unfolding issue_packet issue_eligible_packet
  issue_cases work generation plan run s t o h =
      let p = planned_packet sha256 work generation plan in
      let c = issued_identity sha256 p in
      elim (Bool-cases (issue_eligible work p s)) [
        | inr other ↦ inl (reissued_same p c s t o (packet digit_of p.identity s) (ground arith))
        | inl eligible ↦ inr (
          record { packet = p; checkpoint_identity = c; already_issued = false },
          ground arith,
          refl,
        )
      ]

  issue-IsKept :
      (work : WorkRecord) (generation : ℕ) (plan : V2PacketPlan) (run : String) (s t : Store)
      (o : Option V2PacketIssueResult)
      → IsKept s
      → issue_packet sha256 digit_of work generation plan run s ≡ some (t, o)
      → IsKept t
  unfolding planned_packet
  issue-IsKept work generation plan run s t o kept h =
      let p = planned_packet sha256 work generation plan in
      elim (issue_cases work generation plan run s t o h) [
        | inl same ↦ subst IsKept (sym same) kept
        | inr (r, answered, new) ↦
            let (positive, (w, issued)) =
              issue-IsIssued sha256 digit_of work generation plan run s t r
                (h ∙ ap (λ a. some (t, a)) answered) new in
            issued-IsKept s kept work p run (issued_identity sha256 p) t w refl issued
      ]

  pub start_none :
      (work : WorkRecord) (p : V2ExecutionPacket) (safe holder run : String) (seconds : ℕ)
      (s t : Store)
      → start_packet sha256 digit_of work p safe holder run seconds s ≡ some (t, none)
      → t ≡ s
  unfolding start_packet
  start_none work p safe holder run seconds s t h =
      let pending = pending_identity sha256 p in
      let effect = effect_attempt p.plan work.identity p.generation in
      let taken =
        acquire (is_expired s.now) (lease_row work.identity holder p.generation (s.now + seconds))
          s.leases in
      elim (Bool-cases (start_eligible work p safe pending effect s)) [
        | inr other ↦ ground arith
        | inl eligible ↦ held_same work p pending effect run s t taken (ground arith)
      ]

  start-IsKept :
      (work : WorkRecord) (p : V2ExecutionPacket) (safe holder run : String) (seconds : ℕ)
      (s t : Store) (o : Option V2PacketStartResult)
      → IsKept s
      → start_packet sha256 digit_of work p safe holder run seconds s ≡ some (t, o)
      → IsKept t
  start-IsKept work p safe holder run seconds s t none kept h =
      subst IsKept (sym (start_none work p safe holder run seconds s t h)) kept
  start-IsKept work p safe holder run seconds s t (some r) kept h =
      let (w, row, c, leases, from) =
        start-StartedFrom sha256 digit_of work p safe holder run seconds s t r h in
      started-IsKept work p safe holder (pending_identity sha256 p) run seconds s t w row c leases
        kept from

  step-IsKept : (s t : Store) → Step sha256 digit_of s t → IsKept s → IsKept t
  step-IsKept s t (migrate work b h) kept = migrate-IsKept s t kept work b h
  step-IsKept s t (issue work generation plan run r h) kept =
      issue-IsKept work generation plan run s t r kept h
  step-IsKept s t (start work p safe holder run seconds r h) kept =
      start-IsKept work p safe holder run seconds s t r kept h
  step-IsKept s t (finalize p holder run r h) kept =
      finalize-IsKept s t kept sha256 p holder run r h
  step-IsKept s t (lease work generation holder seconds b h) kept =
      lease-IsKept s t kept work generation holder seconds b h
  step-IsKept s t (release work holder h) kept = release-IsKept s t kept work holder h
  step-IsKept s t (settle key status h) kept = settle-IsKept s t kept key status h
  step-IsKept s t (intend attempt b h) kept = intend-IsKept s t kept attempt b h
  step-IsKept s t (checkpoint point h) kept = checkpoint-IsKept s t kept point h
  step-IsKept s t (synchronize work points h) kept = upsert-IsKept s t kept work points h
  step-IsKept s t (wait seconds) kept = same-IsKept s t kept refl refl

  Reach-IsKept : (s t : Store) → Reach sha256 digit_of s t → IsKept s → IsKept t
  Reach-IsKept s t stay kept = kept
  Reach-IsKept s t (next {t = u} r h) kept = step-IsKept u t h (Reach-IsKept s u r kept)

  empty-IsKept : (s : Store) → s.packets ≡ [] → IsKept s
  empty-IsKept s packets = record {
    unique = λ p q m n e. absurd (none_in p (subst (In p) packets m));
    latest = λ p m live. absurd (none_in p (subst (In p) packets m));
  }
    where
      none_in : (p : PacketRow) → In p [] → ⊥
      none_in p m = elim m [ ]

  -- In a store that statements of the execution state and of the work state reach from one without packets,
  -- two packets of a work that are issued or started are the same packet, which is the latest packet of the
  -- row of that work. The statements are those that V2 code sends, in any order, where each `upsert_work`
  -- writes the latest packet that the stored row has at that time: nobody has issued a packet of the work
  -- between the read of the row and the write of it.
  pub Reach-one_packet :
      (s t : Store)
      → s.packets ≡ []
      → Reach sha256 digit_of s t
      → (p q : PacketRow) → In p t.packets
      → In q t.packets
      → is_open p ≡ true
      → is_open q ≡ true
      → p.packet.work_identity ≡ q.packet.work_identity
      → (p ≡ q)
        × ((w : WorkRecord) × (find_work p.packet.work_identity t.works ≡ some w)
            × (w.latest_task_packet_identity ≡ some p.packet.identity))
  Reach-one_packet s t packets reach p q m n p_live q_live same =
      let kept = Reach-IsKept s t reach (empty-IsKept s packets) in
      let (w, found, points) = kept.latest p m p_live in
      let (v, found', points') = kept.latest q n q_live in
      let again = subst (λ i. find_work i t.works ≡ some v) (sym same) found' in
      let one : w ≡ v = ground arith in (kept.unique p q m n (ground arith), (w, found, points))
