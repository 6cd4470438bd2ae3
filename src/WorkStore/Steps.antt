-- ===== src/WorkStore/Steps.antt =====
-- src/loop_engineering/v2_execution_state.py, with the operations of src/loop_engineering/work_state.py that
-- V2 code also calls, as a step relation on the store, a statement at a time. `record_task_packet` and
-- `issue_packet_transaction` have no caller in src/loop_engineering and are no steps. An `upsert_work` is a
-- step where the row written back has the latest packet of the stored row: v2_resume.py,
-- v2_work_queue.py and v2_autonomous_transitions.py write a row that they read before, and no packet may be
-- issued to the work in between.
use Prim.Native.Char.{Char}
use loop_engineering.Prelude.{◌+◌, String, ℕ, Bool, true, ◌≡◌, Option, some, ◌||◌}
use loop_engineering.Prelude.{◌==◌, string_eq, In}
use loop_engineering.WorkState.{WorkRecord, WorkCheckpoint, EffectAttempt}
use loop_engineering.V2EffectReadback.{Digit}
use loop_engineering.WorkStore.{PacketRow, Store, find_work}
use loop_engineering.WorkStore.Records.{
  upsert_work, record_checkpoint, record_effect_outcome, record_effect_intent,
}
use loop_engineering.WorkStore.Plan.{V2PacketPlan, V2ExecutionPacket}
use loop_engineering.WorkStore.Cutover.{migrate_candidate}
use loop_engineering.WorkStore.Issue.{V2PacketIssueResult, issue_packet}
use loop_engineering.WorkStore.Start.{V2PacketStartResult, start_packet}
use loop_engineering.WorkStore.Finalize.{
  V2PacketFinalizationResult, finalize_packet, acquire_terminal_lease, release_lease,
}

module _ (sha256 : String → String) (digit_of : Char → Digit) where
  -- One call that was answered.
  pub data Step : Store → Store → Type 0 where
    migrate :
        {s t : Store} (work : WorkRecord) (b : Bool)
        → migrate_candidate work s ≡ some (t, b)
        → Step s t
    issue :
        {s t : Store} (work : WorkRecord) (generation : ℕ) (plan : V2PacketPlan) (run : String)
        (r : Option V2PacketIssueResult)
        → issue_packet sha256 digit_of work generation plan run s ≡ some (t, r)
        → Step s t
    start :
        {s t : Store} (work : WorkRecord) (packet : V2ExecutionPacket) (safe holder run : String)
        (seconds : ℕ) (r : Option V2PacketStartResult)
        → start_packet sha256 digit_of work packet safe holder run seconds s ≡ some (t, r)
        → Step s t
    finalize :
        {s t : Store} (packet : V2ExecutionPacket) (holder run : String)
        (r : Option V2PacketFinalizationResult)
        → finalize_packet sha256 packet holder run s ≡ some (t, r)
        → Step s t
    lease :
        {s t : Store} (work : String) (generation : ℕ) (holder : String) (seconds : ℕ) (b : Bool)
        → acquire_terminal_lease work generation holder seconds s ≡ some (t, b)
        → Step s t
    release : {s t : Store} (work holder : String) → release_lease work holder s ≡ some t → Step s t
    settle :
        {s t : Store} (key status : String) → record_effect_outcome key status s ≡ some t → Step s t
    intend :
        {s t : Store} (attempt : EffectAttempt) (b : Bool)
        → record_effect_intent attempt s ≡ some (t, b)
        → Step s t
    checkpoint :
        {s t : Store} (point : WorkCheckpoint) → record_checkpoint point s ≡ some t → Step s t
    -- The row that is written back has the latest packet of the stored row.
    synchronize :
        {s t : Store} (work : WorkRecord)
        → ((w : WorkRecord)
            → find_work work.identity s.works ≡ some w
            → work.latest_task_packet_identity ≡ w.latest_task_packet_identity)
        → upsert_work work s ≡ some t
        → Step s t
    wait : {s : Store} (seconds : ℕ) → Step s (record s { now = s.now + seconds })

  pub data Reach : Store → Store → Type 0 where
    stay : {s : Store} → Reach s s
    next : {s t u : Store} → Reach s t → Step t u → Reach s u

-- A packet that is issued or started.
unfoldable pub is_open : PacketRow → Bool
is_open row = row.packet.status == "ISSUED" || row.packet.status == "STARTED"

pub record IsKept (s : Store) : Type 0 where
  pub unique :
      (p q : PacketRow)
      → In p s.packets
      → In q s.packets
      → p.packet.identity ≡ q.packet.identity
      → p ≡ q
  pub latest :
      (p : PacketRow)
      → In p s.packets
      → is_open p ≡ true
      → (w : WorkRecord) × (find_work p.packet.work_identity s.works ≡ some w)
        × (w.latest_task_packet_identity ≡ some p.packet.identity)
