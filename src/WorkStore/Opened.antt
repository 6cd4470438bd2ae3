-- ===== src/WorkStore/Opened.antt =====
-- src/loop_engineering/v2_execution_state.py: what an issue and a start keep of the open packets.
use mathlib.Core.Path.{subst}
use text.Mathlib.TextEquality.{eq_iff}
use loop_engineering.Prelude.{◌⊎◌, ◌∙◌, String, true, false, ◌≡◌, sym, ap, inl, inr, some, arith}
use loop_engineering.Prelude.{
  ◌==◌, string_eq, nat_eq, option_eq, In, Option-cases, first-In, any-All, All-In,
}
use loop_engineering.WorkState.{WorkRecord}
use loop_engineering.WorkStore.{PacketRow, Store, find_work, find_packet, clashes, has_clash}
use loop_engineering.WorkStore.Plan.{V2ExecutionPacket}
use loop_engineering.WorkStore.Execution.{issued_row}
use loop_engineering.WorkStore.Issue.{
  is_terminal_status, previous_done, latest_done, may_issue, issued_work, issued_store,
}
use loop_engineering.WorkStore.Issued.{IsIssued}
use loop_engineering.WorkStore.Rows.{find-update, find-update_other, append-In}
use loop_engineering.WorkStore.Steps.{is_open, IsKept}

terminal_shut :
    (row : PacketRow) → is_terminal_status row.packet.status ≡ true → is_open row ≡ true → ⊥
unfolding is_terminal_status is_open
terminal_shut row done live = ground (
  arith,
  eq_iff "COMPLETED" "ISSUED",
  eq_iff "COMPLETED" "STARTED",
  eq_iff "SUPERSEDED" "ISSUED",
  eq_iff "SUPERSEDED" "STARTED",
)

module _ (s : Store) (kept : IsKept s) where
  -- A packet that its work points to as done is not open.
  done_shut :
      (p : PacketRow)
      → In p s.packets
      → latest_done s.packets (some p.packet.identity) ≡ true
      → is_open p ≡ true
      → ⊥
  unfolding latest_done previous_done find_packet
  done_shut p m done live = elim (Option-cases (find_packet p.packet.identity s.packets)) [
    | inl missing ↦ ground arith
    | inr (q, found) ↦
        let (n, hit) =
          first-In (λ (o : PacketRow). o.packet.identity == p.packet.identity) s.packets found in
        let same : p ≡ q = kept.unique p q m n (ground arith) in
        terminal_shut q (ground arith) (subst (λ o. is_open o ≡ true) same live)
  ]

  module _ (work : WorkRecord) (p : V2ExecutionPacket) (run c : String) (t : Store) (w : WorkRecord)
      (own : p.work_identity ≡ work.identity) (h : IsIssued work p run c s t w) where
    fresh : (q : PacketRow) → In q s.packets → q.packet.identity ≡ p.identity → ⊥
    unfolding has_clash clashes
    fresh q m e =
        let no =
          All-In (λ o. clashes p.identity p.work_identity p.generation o ≡ false) s.packets
            (any-All (clashes p.identity p.work_identity p.generation) s.packets h.fresh) m in
        ground arith

    -- No packet of the work was open.
    shut :
        (q : PacketRow)
        → In q s.packets
        → q.packet.work_identity ≡ work.identity
        → is_open q ≡ true
        → ⊥
    unfolding may_issue
    shut q m e live =
        let (v, found, points) = kept.latest q m live in
        let found' = subst (λ i. find_work i s.works ≡ some v) e found in
        let f = h.found in
        let same : v ≡ w = ground arith in let taken = h.taken in done_shut q m (ground arith) live

    issued_packets : {q : PacketRow} → In q t.packets → In q s.packets ⊎ (q ≡ issued_row p)
    unfolding issued_store
    issued_packets {q} m =
        append-In s.packets (issued_row p) (subst (λ (o : Store). In q o.packets) h.after m)

    row_identity : (q : PacketRow) → q ≡ issued_row p → q.packet.identity ≡ p.identity
    unfolding issued_row
    row_identity q e = ap (λ (o : PacketRow). o.packet.identity) e

    issued_unique :
        (q r : PacketRow)
        → In q t.packets
        → In r t.packets
        → q.packet.identity ≡ r.packet.identity
        → q ≡ r
    issued_unique q r m n e = elim (issued_packets m) [
      | inl old ↦ elim (issued_packets n) [
        | inl old' ↦ kept.unique q r old old' e
        | inr new ↦ absurd (fresh q old (e ∙ row_identity r new))
      ]
      | inr new ↦ elim (issued_packets n) [
        | inl old' ↦ absurd (fresh r old' (sym e ∙ row_identity q new))
        | inr new' ↦ new ∙ sym new'
      ]
    ]

    issued_old :
        (q : PacketRow)
        → In q s.packets
        → is_open q ≡ true
        → (v : WorkRecord) × (find_work q.packet.work_identity t.works ≡ some v)
          × (v.latest_task_packet_identity ≡ some q.packet.identity)
    unfolding issued_store issued_work
    issued_old q m live = elim (string_eq.dec q.packet.work_identity work.identity) [
      | yes e ↦ absurd (shut q m e live)
      | no differ ↦
          let (v, found, points) = kept.latest q m live in
          let a = h.after in
          let o =
            find-update_other work.identity q.packet.work_identity (issued_work work p c) s.works
              (λ u e. e) differ in
          (v, ground arith, points)
    ]

    issued_new :
        (q : PacketRow)
        → q ≡ issued_row p
        → (v : WorkRecord) × (find_work q.packet.work_identity t.works ≡ some v)
          × (v.latest_task_packet_identity ≡ some q.packet.identity)
    unfolding issued_store issued_work issued_row
    issued_new q e =
        let a = h.after in
        let f = h.found in
        let o = find-update work.identity (issued_work work p c) s.works (λ u e. e) in
        (issued_work work p c w, ground arith, ap some (sym (row_identity q e)))

    pub issued-IsKept : IsKept t
    issued-IsKept = record {
      unique = issued_unique;
      latest = λ q m live. elim (issued_packets m) [
        | inl old ↦ issued_old q old live
        | inr new ↦ issued_new q new
      ];
    }
