-- ===== src/WorkStore/Issue.antt =====
-- src/loop_engineering/v2_execution_state.py: `issue_packet`, which gives a work its next packet.
use Prim.Native.Char.{Char}
use loop_engineering.Prelude.{
  ℕ, String, Bool, true, false, ◌&&◌, ◌||◌, not, Option, none, some, List, [], ◌∷◌, ◌++◌,
}
use loop_engineering.Prelude.{◌==◌, string_eq, nat_eq, option_eq, if◌then◌else◌, any, leb, is_empty}
use loop_engineering.WorkState.{WorkRecord, WorkCheckpoint}
use loop_engineering.V2EffectReadback.{Digit}
use loop_engineering.WorkStore.{
  is_literal, PacketRow, LeaseRow, Store, find_work, find_packet, has_pending, has_clash,
  has_checkpoint, update_works,
}
use loop_engineering.WorkStore.Transaction.{is_expired}
use loop_engineering.WorkStore.Plan.{
  V2PacketPlan, V2ExecutionPacket, packet_identity, checkpoint_identity, valid_plan, same_packet,
}
use loop_engineering.WorkStore.Execution.{issued_row, checkpoint_of, plan_literals, packet}

unfoldable pub is_terminal_status : String → Bool
is_terminal_status status = status == "COMPLETED" || status == "SUPERSEDED"

-- `loop_task_packets previous`, of the latest packet of the work.
unfoldable pub previous_done : Option PacketRow → Bool
previous_done none = false
previous_done (some row) = is_terminal_status row.packet.status

unfoldable pub latest_done : List PacketRow → Option String → Bool
latest_done packets none = true
latest_done packets (some identity) = previous_done (find_packet identity packets)

-- `l.expires_at > now()`
live_lease_of : String → ℕ → LeaseRow → Bool
live_lease_of work now lease = lease.work_identity == work && not (is_expired now lease)

-- The work that `_issue_packet_sql` takes.
unfoldable pub may_issue : WorkRecord → Store → WorkRecord → Bool
unfolding live_lease_of
may_issue work s row =
    row.repository == work.repository
    && row.issue_number == work.issue_number
    && not (has_pending row.identity s.effects)
    && not (any (live_lease_of row.identity s.now) s.leases)
    && latest_done s.packets row.latest_task_packet_identity

unfoldable pub taken_by : (WorkRecord → Bool) → Option WorkRecord → Bool
taken_by test none = false
taken_by test (some row) = test row

-- The rows `eligible`.
unfoldable pub issue_eligible : WorkRecord → V2ExecutionPacket → Store → Bool
issue_eligible work packet s =
    taken_by (may_issue work s) (find_work work.identity s.works)
    && not (has_clash packet.identity packet.work_identity packet.generation s.packets)

-- The unique index on `effect_idempotency_key`.
unfoldable pub has_plan_key : String → List PacketRow → Bool
has_plan_key key packets = any (λ (p : PacketRow). p.effect_idempotency_key == some key) packets

unfoldable pub issued_work : WorkRecord → V2ExecutionPacket → String → WorkRecord → WorkRecord
issued_work work packet checkpoint row = record row {
  issue_revision = work.issue_revision;
  lifecycle = "RUNNING";
  selected_transition = some packet.plan.transition;
  latest_task_packet_identity = some packet.identity;
  latest_checkpoint_identity = some checkpoint;
}

pub record V2PacketIssueResult : Type 0 where
  pub packet : V2ExecutionPacket
  pub checkpoint_identity : String
  pub already_issued : Bool

unfoldable pub issued_point : V2ExecutionPacket → String → String → WorkCheckpoint
issued_point packet checkpoint run =
    checkpoint_of packet checkpoint run "SAFE_POINT" "PACKET_ISSUED" "明示発行済みの作業パケットを実行する"

-- The store after `_issue_packet_sql` on an eligible work.
unfoldable pub issued_store : WorkRecord → V2ExecutionPacket → String → String → Store → Store
issued_store work packet run checkpoint s = record s {
  packets = s.packets ++ (issued_row packet ∷ []);
  checkpoints = s.checkpoints ++ (issued_point packet checkpoint run ∷ []);
  works = update_works work.identity (issued_work work packet checkpoint) s.works;
}

-- `existing == packet`
unfoldable pub reissued :
    V2ExecutionPacket
    → String
    → Store
    → Option (Option V2ExecutionPacket)
    → Option (Store × Option V2PacketIssueResult)
reissued packet checkpoint s none = none
reissued packet checkpoint s (some none) = some (s, none)
reissued packet checkpoint s (some (some existing)) =
    if same_packet existing packet
    then some (
      s,
      some (record { packet = packet; checkpoint_identity = checkpoint; already_issued = true }),
    )
    else some (s, none)

unfoldable pub issue_literals : WorkRecord → V2ExecutionPacket → String → String → Bool
issue_literals work packet run checkpoint =
    is_literal work.identity
    && is_literal work.repository
    && is_literal work.issue_revision
    && is_literal packet.identity
    && is_literal run
    && is_literal checkpoint
    && plan_literals packet.plan

-- The statement, on an eligible work: `none` where it breaks a unique index.
unfoldable pub issue_eligible_packet :
    WorkRecord
    → V2ExecutionPacket
    → String
    → String
    → Store
    → Option (Store × Option V2PacketIssueResult)
issue_eligible_packet work packet run checkpoint s =
    if has_plan_key packet.plan.idempotency_key s.packets || has_checkpoint checkpoint s.checkpoints
    then none
    else some (
      issued_store work packet run checkpoint s,
      some (record { packet = packet; checkpoint_identity = checkpoint; already_issued = false }),
    )

unfoldable pub planned_packet :
    (String → String) → WorkRecord → ℕ → V2PacketPlan → V2ExecutionPacket
planned_packet sha256 work generation plan = record {
  identity = packet_identity sha256 work.identity generation;
  work_identity = work.identity;
  generation = generation;
  status = "ISSUED";
  plan = plan;
}

unfoldable pub issued_identity : (String → String) → V2ExecutionPacket → String
issued_identity sha256 packet = checkpoint_identity sha256 packet.identity "issued"

-- `issue_packet`
unfoldable pub issue_packet :
    (String → String)
    → (Char → Digit)
    → WorkRecord
    → ℕ
    → V2PacketPlan
    → String
    → Store
    → Option (Store × Option V2PacketIssueResult)
issue_packet sha256 digit_of work generation plan run s =
    let p = planned_packet sha256 work generation plan in
    let checkpoint = issued_identity sha256 p in
    if not (leb 1 generation)
      || is_empty run
      || not (valid_plan digit_of plan)
      || not (issue_literals work p run checkpoint)
    then none
    else if issue_eligible work p s
    then issue_eligible_packet work p run checkpoint s
    else reissued p checkpoint s (packet digit_of p.identity s)
