-- ===== src/WorkStore/Issued.antt =====
-- What `recover` and then `resume` make of a packet that was just issued: src/loop_engineering/work_state.py
-- and src/loop_engineering/v2_resume.py after src/loop_engineering/v2_execution_state.py.
use Prim.Native.Char.{Char}
use loop_engineering.Prelude.{
  String, ℕ, true, false, ◌≡◌, refl, sym, inl, inr, Option, none, some, [], arith,
}
use loop_engineering.Prelude.{
  ◌==◌, string_eq, option_eq, nat_eq, all, Bool-cases, Option-cases, leb,
}
use loop_engineering.WorkState.{WorkRecord, WorkCheckpoint, RecoveredWork}
use loop_engineering.V2EffectReadback.{Digit}
use loop_engineering.V2Resume.{ready, ResumePorts, resume}
use loop_engineering.V2Resume.Readiness.{SameWork, ready_iff}
use loop_engineering.WorkStore.{
  is_literal, PacketRow, Store, find_work, find_packet, find_checkpoint, is_pending_of, has_pending,
  has_clash, has_checkpoint,
}
use loop_engineering.WorkStore.Recovery.{
  recover, recover_found, recovered, read_packet, by_identity, pending_effects,
}
use loop_engineering.WorkStore.Plan.{V2PacketPlan, V2ExecutionPacket}
use loop_engineering.WorkStore.Execution.{issued_row, checkpoint_of, packet}
use loop_engineering.WorkStore.Issue.{
  taken_by, may_issue, issue_eligible, issued_work, V2PacketIssueResult, issued_point, issued_store,
  reissued, issue_literals, issue_eligible_packet, planned_packet, issued_identity, issue_packet,
}
use loop_engineering.WorkStore.Rows.{
  find-update, found-identity, first-append, keep-none, clash-none,
}

-- What a packet and the work that takes it were, when it was issued.
pub record IsIssued (work : WorkRecord) (p : V2ExecutionPacket) (run checkpoint : String)
    (s s' : Store) (w : WorkRecord) : Type 0 where
  pub found : find_work work.identity s.works ≡ some w
  pub taken : may_issue work s w ≡ true
  pub fresh : has_clash p.identity p.work_identity p.generation s.packets ≡ false
  pub fresh_point : has_checkpoint checkpoint s.checkpoints ≡ false
  pub literal : is_literal work.identity ≡ true
  pub after : s' ≡ issued_store work p run checkpoint s

-- The result of an issue, where it is one.
module _ (work : WorkRecord) (p : V2ExecutionPacket) (run checkpoint : String) (s : Store) where
  eligible-row :
      issue_eligible work p s ≡ true
      → (w : WorkRecord) × (find_work work.identity s.works ≡ some w) × (may_issue work s w ≡ true)
  unfolding issue_eligible taken_by
  eligible-row h = elim (Option-cases (find_work work.identity s.works)) [
    | inl missing ↦ absurd (ground arith)
    | inr (w, found) ↦ (w, found, ground arith)
  ]

  eligible-IsIssued :
      (s' : Store) (r : V2PacketIssueResult)
      → issue_literals work p run checkpoint ≡ true
      → issue_eligible work p s ≡ true
      → issue_eligible_packet work p run checkpoint s ≡ some (s', some r)
      → (w : WorkRecord) × IsIssued work p run checkpoint s s' w
  unfolding issue_eligible issue_eligible_packet issue_literals
  eligible-IsIssued s' r literals eligible h =
      let (w, found, taken) = eligible-row eligible in
      (
        w,
        record {
          found = found;
          taken = taken;
          fresh = ground arith;
          fresh_point = ground arith;
          literal = ground arith;
          after = ground arith;
        },
      )

  pub reissued_already :
      (s' : Store) (r : V2PacketIssueResult) (o : Option (Option V2ExecutionPacket))
      → reissued p checkpoint s o ≡ some (s', some r)
      → r.already_issued ≡ true
  unfolding reissued
  reissued_already s' r none h = absurd (ground arith)
  reissued_already s' r (some none) h = absurd (ground arith)
  reissued_already s' r (some (some e)) h = ground arith

pub issue-IsIssued :
    (sha256 : String → String) (digit_of : Char → Digit) (work : WorkRecord) (generation : ℕ)
    (plan : V2PacketPlan) (run : String) (s s' : Store) (r : V2PacketIssueResult)
    → issue_packet sha256 digit_of work generation plan run s ≡ some (s', some r)
    → r.already_issued ≡ false
    → let p = planned_packet sha256 work generation plan in
      (leb 1 generation ≡ true)
      × ((w : WorkRecord) × IsIssued work p run (issued_identity sha256 p) s s' w)
unfolding issue_packet
issue-IsIssued sha256 digit_of work generation plan run s s' r h new =
    let p = planned_packet sha256 work generation plan in
    let c = issued_identity sha256 p in
    elim (Bool-cases (issue_eligible work p s)) [
      | inl eligible ↦ (
        ground arith,
        eligible-IsIssued work p run c s s' r (ground arith) eligible (ground arith),
      )
      | inr taken ↦ absurd (
          let e =
            reissued_already work p run c s s' r (packet digit_of p.identity s) (ground arith) in
          ground arith)
    ]

-- What is recovered of an issued packet.
unfoldable pub issued_recovery :
    WorkRecord → V2ExecutionPacket → String → String → WorkRecord → RecoveredWork
issued_recovery work p run checkpoint w = record {
  work = issued_work work p checkpoint w;
  task_packet = some (issued_row p).packet;
  checkpoint = some (issued_point p checkpoint run);
  pending_effects = [];
}

module _ (work : WorkRecord) (p : V2ExecutionPacket) (run checkpoint : String) (s : Store) where
  module _ (w : WorkRecord) (s' : Store) (h : IsIssued work p run checkpoint s s' w) where
    issued-work : find_work work.identity s'.works ≡ some (issued_work work p checkpoint w)
    unfolding issued_store issued_work
    issued-work =
        let e = find-update work.identity (issued_work work p checkpoint) s.works (λ v e. e) in
        let f = h.found in let a = h.after in ground arith

    pub issued-packet : find_packet p.identity s'.packets ≡ some (issued_row p)
    unfolding find_packet issued_store issued_row
    issued-packet =
        let e =
          first-append (λ (q : PacketRow). q.packet.identity == p.identity) s.packets (issued_row p)
            (clash-none p.identity p.work_identity p.generation s.packets h.fresh) (ground arith) in
        let a = h.after in ground arith

    issued-point : find_checkpoint checkpoint s'.checkpoints ≡ some (issued_point p checkpoint run)
    unfolding find_checkpoint issued_store issued_point checkpoint_of has_checkpoint
    issued-point =
        let e =
          first-append (λ (c : WorkCheckpoint). c.identity == checkpoint) s.checkpoints
            (issued_point p checkpoint run) h.fresh_point (ground arith) in
        let a = h.after in ground arith

    issued-quiet : pending_effects work.identity s'.effects ≡ []
    unfolding pending_effects issued_store may_issue has_pending
    issued-quiet =
        let i = found-identity work.identity s.works w h.found in
        let t = h.taken in
        let e = keep-none (is_pending_of work.identity) s.effects (ground arith) in
        let a = h.after in ground arith

    issued_recover :
        leb 1 p.generation ≡ true
        → leb 1 work.issue_number ≡ true
        → recover work.identity s' ≡ some (some (issued_recovery work p run checkpoint w))
    unfolding recover recover_found recovered read_packet by_identity issued_recovery issued_work
        issued_row may_issue all
    issued_recover positive numbered =
        let i = found-identity work.identity s.works w h.found in
        let a = issued-work in
        let b = issued-packet in
        let c = issued-point in
        let d = issued-quiet in let l = h.literal in let t = h.taken in ground arith

module _ (sha256 : String → String) (digit_of : Char → Digit) (work : WorkRecord) (generation : ℕ)
    (plan : V2PacketPlan) (run : String) (s s' : Store) (r : V2PacketIssueResult) where
  -- After `issue_packet` has issued a packet that is new, `recover` of the work, whose issue number is
  -- positive, gives the row of the work pointing to that packet, the issued packet, its safe point, and no
  -- pending effect.
  pub issue_packet-recover :
      issue_packet sha256 digit_of work generation plan run s ≡ some (s', some r)
      → r.already_issued ≡ false
      → leb 1 work.issue_number ≡ true
      → (w : WorkRecord) × (find_work work.identity s.works ≡ some w)
        × (recover work.identity s'
            ≡ some (
                some (
                  issued_recovery work
                    (planned_packet sha256 work generation plan)
                    run
                    (issued_identity sha256 (planned_packet sha256 work generation plan))
                    w)))
  unfolding planned_packet
  issue_packet-recover h new numbered =
      let p = planned_packet sha256 work generation plan in
      let (positive, (w, issued)) =
        issue-IsIssued sha256 digit_of work generation plan run s s' r h new in
      (
        w,
        issued.found,
        issued_recover work p run (issued_identity sha256 p) s w s' issued positive numbered,
      )

  -- After `issue_packet` has issued a packet that is new, `resume` on what `recover` gives of the store is
  -- READY, where the issue number is positive and the work definition of the recovered work is ready and of
  -- the same work.
  pub issue_packet-resumes :
      (ports : ResumePorts)
      → issue_packet sha256 digit_of work generation plan run s ≡ some (s', some r)
      → r.already_issued ≡ false
      → leb 1 work.issue_number ≡ true
      → recover work.identity s' ≡ some (ports.recover work.identity)
      → ((v : RecoveredWork)
          → ports.recover work.identity ≡ some v
          → ((ports.synchronize v.work).status ≡ ready)
            × ((u : WorkRecord) × ((ports.synchronize v.work).synchronized ≡ some u)
                × SameWork v.work u))
      → (resume ports work.identity).0.status ≡ ready
  unfolding issued_recovery issued_work issued_row issued_point checkpoint_of planned_packet
  issue_packet-resumes ports h new numbered port defined =
      let p = planned_packet sha256 work generation plan in
      let c = issued_identity sha256 p in
      let (w, found, read) = issue_packet-recover h new numbered in
      let v = issued_recovery work p run c w in
      let named = found-identity work.identity s.works w found in
      let answered : ports.recover work.identity ≡ some v = ground arith in
      let (status, (u, synchronized, same)) = defined v answered in
      (ready_iff ports work.identity).1 (
        v,
        (issued_row p).packet,
        issued_point p c run,
        u,
        answered,
        refl,
        refl,
        record {
          linked = record {
            packet_named = refl;
            checkpoint_named = refl;
            packet_work = sym named;
            checkpoint_work = sym named;
            checkpoint_packet = refl;
          };
          quiet = refl;
          issued = refl;
          safe = refl;
          defined = status;
          found = synchronized;
          same = same;
        },
      )
