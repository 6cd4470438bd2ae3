-- ===== src/WorkStore/Again.antt =====
-- src/loop_engineering/v2_execution_state.py: `issue_packet` of a packet that it has already issued.
use Prim.Native.Char.{Char}
use loop_engineering.Prelude.{
  is_empty, ◌∙◌, String, ℕ, Bool, true, false, ◌≡◌, refl, sym, ap, inl, inr, Option, some, List, [],
  ◌∷◌, ◌++◌, arith,
}
use loop_engineering.Prelude.{
  ◌==◌, string_eq, nat_eq, option_eq, any, Bool-cases, sort_by, pair_le, leb,
}
use loop_engineering.WriteGate.{Mapping}
use loop_engineering.WorkState.{WorkRecord}
use loop_engineering.V2EffectReadback.{Digit}
use loop_engineering.WorkStore.{Store, clashes, has_clash}
use loop_engineering.WorkStore.Plan.{
  V2PacketPlan, V2ExecutionPacket, valid_plan, same_list, same_pair, same_plan, same_packet,
}
use loop_engineering.WorkStore.Execution.{issued_row, execution_packet, packet, read_row}
use loop_engineering.WorkStore.Issue.{
  issue_eligible, issue_eligible_packet, issued_store, issue_literals, reissued, planned_packet,
  issued_identity, issue_packet, V2PacketIssueResult,
}
use loop_engineering.WorkStore.Issued.{IsIssued, issue-IsIssued, reissued_already, issued-packet}

same-list {ℓ} :
    {A : Type ℓ} (same : A → A → Bool)
    → ((a : A) → same a a ≡ true)
    → (xs : List A) → same_list same xs xs ≡ true
unfolding same_list
same-list same h [] = refl
same-list same h (x ∷ xs) = let e = h x in ground (arith, same-list same h xs)

same-packet : (p : V2ExecutionPacket) → same_packet p p ≡ true
unfolding same_packet same_plan same_pair
same-packet p =
    let a = same-list same_pair (λ x. ground arith) p.plan.expected_preconditions in
    let b = same-list same_pair (λ x. ground arith) p.plan.expected_effect in
    let c =
      same-list (λ (x y : String). x == y) (λ x. ground arith) p.plan.canonical_design_identities in
    ground arith

-- The pairs are in the order in which they are read.
pub record IsSorted (plan : V2PacketPlan) : Type 0 where
  pub preconditions : sort_by pair_le plan.expected_preconditions ≡ plan.expected_preconditions
  pub effect : sort_by pair_le plan.expected_effect ≡ plan.expected_effect

any-append {ℓ} :
    {A : Type ℓ} (t : A → Bool) (xs : List A) (x : A) → t x ≡ true → any t (xs ++ (x ∷ [])) ≡ true
unfolding any
any-append t [] x h = ground arith
any-append t (y ∷ xs) x h = ground (arith, any-append t xs x h)

row_clashes :
    (p : V2ExecutionPacket) → clashes p.identity p.work_identity p.generation (issued_row p) ≡ true
unfolding clashes issued_row
row_clashes p = ground arith

module _ (digit_of : Char → Digit) (p : V2ExecutionPacket) where
  sorted-plan :
      IsSorted p.plan
      → record p.plan {
        expected_preconditions = sort_by pair_le p.plan.expected_preconditions;
        expected_effect = sort_by pair_le p.plan.expected_effect;
      }
        ≡ p.plan
  sorted-plan sorted =
      ap
        (λ (m : Mapping). record p.plan {
          expected_preconditions = m;
          expected_effect = sort_by pair_le p.plan.expected_effect;
        })
        sorted.preconditions
      ∙ ap (λ (m : Mapping). record p.plan { expected_effect = m }) sorted.effect

  -- What is written of an issued packet is read as that packet.
  row-packet :
      IsSorted p.plan
      → p.status ≡ "ISSUED"
      → leb 1 p.generation ≡ true
      → valid_plan digit_of p.plan ≡ true
      → execution_packet digit_of (issued_row p) ≡ some p
  unfolding execution_packet issued_row
  row-packet sorted issued positive valid =
      let e = sorted-plan sorted in
      let valid' = ap (valid_plan digit_of) e ∙ valid in
      let same : record p { status = "ISSUED" } ≡ p =
        ap (λ st. record p { status = st }) (sym issued) in
      let same' = ap (λ (m : V2PacketPlan). record p { status = "ISSUED"; plan = m }) e ∙ same in
      ground arith

module _ (sha256 : String → String) (digit_of : Char → Digit) (work : WorkRecord) (generation : ℕ)
    (plan : V2PacketPlan) (run : String) (s t : Store) (r : V2PacketIssueResult) where
  issue-parts :
      (o : Option V2PacketIssueResult) (v : Store)
      → issue_packet sha256 digit_of work generation plan run s ≡ some (v, o)
      → let p = planned_packet sha256 work generation plan in
        (valid_plan digit_of plan ≡ true)
        × (issue_literals work p run (issued_identity sha256 p) ≡ true)
        × (is_empty run ≡ false)
  unfolding issue_packet
  issue-parts o v h = (ground arith, ground arith, ground arith)

  answered :
      issue_packet sha256 digit_of work generation plan run s ≡ some (t, some r)
      → r.already_issued ≡ false
      → let p = planned_packet sha256 work generation plan in
        r ≡ record {
          packet = p;
          checkpoint_identity = issued_identity sha256 p;
          already_issued = false;
        }
  unfolding issue_packet issue_eligible_packet
  answered h new =
      let p = planned_packet sha256 work generation plan in
      let c = issued_identity sha256 p in
      elim (Bool-cases (issue_eligible work p s)) [
        | inl eligible ↦ ground arith
        | inr taken ↦ absurd (
            let e =
              reissued_already work p run c s t r (packet digit_of p.identity s) (ground arith) in
            ground arith)
      ]

  -- The packet is in the way of another of its identity.
  no_longer :
      (w : WorkRecord)
      → let p = planned_packet sha256 work generation plan in
        IsIssued work p run (issued_identity sha256 p) s t w → issue_eligible work p t ≡ false
  unfolding issue_eligible has_clash issued_store
  no_longer w h =
      let p = planned_packet sha256 work generation plan in
      let there =
        any-append (clashes p.identity p.work_identity p.generation) s.packets (issued_row p)
          (row_clashes p) in
      let a = h.after in ground arith

  -- What has issued a new packet, with the pairs of its plan in order, answers the second time that it is
  -- already issued, with the same packet and checkpoint, and leaves the store as it was.
  pub issue_packet-again :
      issue_packet sha256 digit_of work generation plan run s ≡ some (t, some r)
      → r.already_issued ≡ false
      → IsSorted plan
      → issue_packet sha256 digit_of work generation plan run t
        ≡ some (t, some (record r { already_issued = true }))
  unfolding issue_packet reissued packet read_row issue_literals planned_packet
  issue_packet-again h new sorted =
      let p = planned_packet sha256 work generation plan in
      let (valid, literals, run_given) = issue-parts (some r) t h in
      let (positive, (w, issued)) =
        issue-IsIssued sha256 digit_of work generation plan run s t r h new in
      let there = issued-packet work p run (issued_identity sha256 p) s w t issued in
      let read = row-packet digit_of p sorted refl positive valid in
      let same = same-packet p in
      let shut = no_longer w issued in let was = answered h new in ground arith
