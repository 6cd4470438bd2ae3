-- ===== src/Examples/Execution.antt =====
-- src/loop_engineering/v2_execution_state.py on the same store: the packet is started, its effect is settled,
-- and it is finalized.
use loop_engineering.Prelude.{true, false, ◌≡◌, refl, none, some, [], ◌∷◌, ◌≤◌, arith}
use loop_engineering.Prelude.{
  string_eq, nat_eq, option_eq, has_nul, size, decimal, In, here, any, all, first, keep, count,
  strip_prefix,
}
use loop_engineering.WorkState.{WorkRecord}
use loop_engineering.WorkStore.{Store, find_work}
use loop_engineering.WorkStore.Plan.{V2ExecutionPacket}
use loop_engineering.WorkStore.Issue.{issued_store}
use mathlib.Core.Option.{bind}
use native.Mathlib.Decide.{ℕ_discrete}
use loop_engineering.Prelude.{insert_by, sort_by, pair_le, text_le, lookup}
use loop_engineering.WriteGate.{agrees}
use loop_engineering.V2EffectReadback.{same_items, target_suffix, same_set}
use loop_engineering.WorkStore.{
  are_pairs, is_json_array, is_json_object, is_literal, find_packet, find_checkpoint,
  has_checkpoint, has_pending, has_effect, is_pending_of, is_unresolved, update_works,
  update_packets, acquire, LeaseRow, PacketRow,
}
use loop_engineering.WorkStore.Plan.{valid_plan, checkpoint_identity, effect_attempt}
use loop_engineering.WorkStore.Execution.{checkpoint_of, column_literals, issued_row, plan_literals}
use loop_engineering.WorkStore.Issue.{issued_point, issued_work}
use loop_engineering.WorkState.{RecoveredWork, EffectAttempt}
use loop_engineering.V2Resume.{ready, EffectReadbackStatus, resume, upsert_work, outcome}
use loop_engineering.V2Resume.Readiness.{SameWork}
use loop_engineering.WorkStore.Recovery.{
  recover, recover_found, recovered, read_packet, by_identity, pending_effects, read_effect,
}
use loop_engineering.WorkStore.Start.{
  startable, plan_columns, start_joined, start_found, start_eligible, set_packet_status, point_work,
  started_store, started_point, lease_row, start_literals, valid_start, pending_identity,
  start_packet, started as started_answer, V2PacketStartResult,
}
use mathlib.Core.Path.{subst}
use loop_engineering.Prelude.{ap, sym, leb, ◌+◌}
use loop_engineering.V2Resume.Pending.{read_back_status}
use loop_engineering.WorkStore.Continued.{started_recovery, start_packet-resumes}
use loop_engineering.WorkStore.Leases.{lease_of, start_packet-leases}
use loop_engineering.WorkStore.Steps.{Reach, stay, next, issue, start, settle, finalize, is_open}
use loop_engineering.WorkStore.Records.{record_effect_outcome, settle_effects}
use loop_engineering.WorkStore.Reached.{Reach-one_packet}
use loop_engineering.WorkStore.Growing.{Keyed, Stays}
use loop_engineering.WorkStore.Effects.{Reach-one_effect}
use loop_engineering.WorkStore.Finalize.{
  finalize_packet, finalized_store, V2PacketFinalizationResult, finalize_terminal, finalize_with,
  finalize_eligible, finalize_literals, terminal_effect_status, only_status, is_terminal_of,
  is_effect_of, is_started, held_by, with_status_of, final_status, final_kind, final_action,
  final_work, final_identity, closes_issue,
}
use loop_engineering.WorkStore.Completed.{CanEnd, finalize_packet-ends}
use loop_engineering.WorkStore.Finalized.{IsFinalized}
use loop_engineering.WorkStore.Entitled.{IsEntitled, finalize_packet-IsEntitled}
use loop_engineering.Examples.Store.{
  work, plan, planned, sha256, digits, first_packet, issued, issue_result, issues, ports, same_work,
}

abbrev effect : EffectAttempt
effect = record {
  idempotency_key = "effect:1";
  work_identity = "work-7";
  kind = "PUSH";
  target_identity = "branch:work/7";
  status = "INTENT_RECORDED";
  request_identity = none;
  packet_generation = some 1;
  expected_preconditions = ("head", "a") ∷ [];
  expected_effect = ("head", "b") ∷ [];
}

abbrev held : LeaseRow
held = record {
  work_identity = "work-7";
  holder_identity = "host";
  packet_generation = 1;
  expires_at = 400;
}

abbrev started : Store
started = started_store work first_packet "checkpoint:23" effect "run-1" (held ∷ []) issued

abbrev start_result : V2PacketStartResult
start_result = record { effect = effect; checkpoint_identity = "checkpoint:23" }

starts :
    start_packet sha256 digits work first_packet "checkpoint:15" "host" "run-1" 300 issued
    ≡ some (started, some start_result)
unfolding start_packet valid_plan size are_pairs has_nul nat_eq same_items agrees all option_eq
    lookup string_eq target_suffix bind strip_prefix same_set any first insert_by sort_by decimal
    pair_le text_le checkpoint_of column_literals issued_row plan_literals issued_point issued_store
    issued_work is_json_array is_json_object is_literal checkpoint_identity find_packet find_work
    find_checkpoint has_checkpoint has_pending has_effect is_pending_of is_unresolved update_works
    update_packets acquire ℕ_discrete effect_attempt startable plan_columns start_joined start_found
    start_eligible set_packet_status point_work started_store started_point lease_row start_literals
    valid_start pending_identity started_answer by_identity
starts = refl

abbrev started_first : RecoveredWork
started_first =
    started_recovery first_packet effect "checkpoint:23" "run-1"
      (issued_work work first_packet "checkpoint:15" work) (issued_row first_packet)

finds_issued :
    find_work "work-7" issued.works ≡ some (issued_work work first_packet "checkpoint:15" work)
unfolding find_work first issued_store update_works string_eq issued_work
finds_issued = refl

numbered : leb 1 (issued_work work first_packet "checkpoint:15" work).issue_number ≡ true
unfolding issued_work nat_eq ℕ_discrete
numbered = refl

recovers_started : recover "work-7" started ≡ some (some started_first)
unfolding recover recover_found recovered read_packet by_identity pending_effects keep
    started_recovery issued_store issued_work issued_row issued_point checkpoint_of all is_literal
    has_nul size nat_eq string_eq find_work find_packet find_checkpoint first update_works
    update_packets is_pending_of is_unresolved ℕ_discrete started_store started_point
    set_packet_status point_work
recovers_started = refl

owned :
    (row : PacketRow)
    → find_packet "packet:8" issued.packets ≡ some row
    → row.packet.work_identity ≡ "work-7"
unfolding find_packet first issued_store issued_row string_eq
owned row e = ground arith

start_packet-resumes_example :
    ((resume (ports started_first) "work-7").0.status
      ≡ read_back_status EffectReadbackStatus.confirmed)
    × ((resume (ports started_first) "work-7").1
        ≡ upsert_work started_first.work
          ∷ outcome (ports started_first).readback (read_effect (effect_attempt plan "work-7" 1))
          ∷ [])
start_packet-resumes_example =
    start_packet-resumes sha256 digits work first_packet "checkpoint:15" "host" "run-1" 300 issued
      started start_result (issued_work work first_packet "checkpoint:15" work)
      (ports started_first) started_first.work starts finds_issued numbered refl owned
      recovers_started fits
  where
    fits :
        (v : RecoveredWork)
        → some started_first ≡ some v
        → (((ports started_first).synchronize v.work).status ≡ ready)
          × (some v.work ≡ some started_first.work)
          × SameWork v.work started_first.work
    fits v found =
        let same : started_first ≡ v = ground arith in
        (
          refl,
          ap (λ (o : RecoveredWork). some o.work) (sym same),
          subst (λ (o : RecoveredWork). SameWork o.work started_first.work) same
              (same_work started_first.work),
        )

start_packet-leases_example :
    (1 ≤ 300)
    × (300 ≤ 3600)
    × ((l : LeaseRow) → lease_of "work-7" issued.leases ≡ some l → l.expires_at ≤ issued.now)
    × (lease_of "work-7" started.leases ≡ some (lease_row "work-7" "host" 1 (issued.now + 300)))
start_packet-leases_example =
    start_packet-leases sha256 digits work first_packet "checkpoint:15" "host" "run-1" 300 issued
      started start_result starts

runs_started : Reach sha256 digits planned started
runs_started =
    next (next stay (issue work 1 plan "run-1" (some issue_result) issues))
      (start work first_packet "checkpoint:15" "host" "run-1" 300 (some start_result) starts)

abbrev started_packet : PacketRow
started_packet = record (issued_row first_packet) {
  packet = set_packet_status "STARTED" (issued_row first_packet).packet;
}

in_started : In started_packet started.packets
unfolding issued_row set_packet_status started_store issued_store update_packets string_eq
in_started = here refl

started_open : is_open started_packet ≡ true
unfolding is_open set_packet_status issued_row string_eq
started_open = refl

Reach-one_packet_example :
    (started_packet ≡ started_packet)
    × ((w : WorkRecord) × (find_work started_packet.packet.work_identity started.works ≡ some w)
        × (w.latest_task_packet_identity ≡ some started_packet.packet.identity))
Reach-one_packet_example =
    Reach-one_packet sha256 digits planned started refl runs_started started_packet started_packet
      in_started in_started started_open started_open refl

abbrev running : V2ExecutionPacket
running = record first_packet { status = "STARTED" }

abbrev settled : Store
settled = record started { effects = (record effect { status = "CONFIRMED" }) ∷ [] }

abbrev finalized : Store
finalized = finalized_store running "run-1" "checkpoint:18" "CONFIRMED" settled

abbrev final_result : V2PacketFinalizationResult
final_result = record {
  packet_status = "COMPLETED";
  effect_status = "CONFIRMED";
  checkpoint_identity = "checkpoint:18";
  work_completed = false;
}

finalizes :
    finalize_packet sha256 running "host" "run-1" settled ≡ some (finalized, some final_result)
unfolding finalize_packet size has_nul nat_eq string_eq option_eq checkpoint_identity decimal
    issued_row ℕ_discrete finalize_terminal terminal_effect_status is_literal only_status keep
    is_terminal_of is_effect_of finalize_with finalize_literals final_identity is_json_array all
    finalize_eligible any started_store update_packets issued_store count first lookup checkpoint_of
    closes_issue final_action final_kind final_status final_work finalized_store held_by is_started
    with_status_of issued_point issued_work point_work set_packet_status started_point find_packet
    find_work has_checkpoint update_works
finalizes = refl

finalize_packet-IsEntitled_example :
    IsEntitled running "host" settled "CONFIRMED" "COMPLETED"
    × IsFinalized running settled finalized final_result
finalize_packet-IsEntitled_example =
    finalize_packet-IsEntitled running "host" "run-1" settled finalized final_result sha256
      finalizes

settles : record_effect_outcome "effect:1" "CONFIRMED" started ≡ some settled
unfolding record_effect_outcome settle_effects is_literal has_nul size is_unresolved string_eq
    started_store issued_store nat_eq
settles = refl

runs_finalized : Reach sha256 digits started finalized
runs_finalized =
    next (next stay (settle "effect:1" "CONFIRMED" settles))
      (finalize running "host" "run-1" (some final_result) finalizes)

started-Keyed : Keyed started.effects
unfolding count started_store issued_store
started-Keyed key = ground arith

Reach-one_effect_example :
    Keyed finalized.effects
    × ((e : EffectAttempt) → In e started.effects → Stays e finalized.effects)
Reach-one_effect_example =
    Reach-one_effect sha256 digits started finalized runs_finalized started-Keyed

can_end :
    CanEnd sha256 digits work first_packet "checkpoint:15" "host" "run-1" 300 issued started
      start_result 10
unfolding is_literal has_nul size final_identity checkpoint_identity decimal has_checkpoint any
    find_packet first issued_store issued_row started_store started_point checkpoint_of issued_point
    string_eq nat_eq ℕ_discrete
can_end = record {
  in_time = ground arith;
  own_row = λ q found. ground arith;
  first_effect = tt;
  literal_point = refl;
  fresh_point = refl;
}

finalize_packet-ends_example :
    (v : Store) × (o : V2PacketFinalizationResult) × (finalize_packet sha256 running "host" "run-1"
        (record settled { now = settled.now + 10 })
      ≡ some (v, some o))
    × (o.packet_status ≡ "COMPLETED")
    × IsFinalized running (record settled { now = settled.now + 10 }) v o
finalize_packet-ends_example =
    finalize_packet-ends sha256 digits work first_packet "checkpoint:15" "host" "run-1" 300 issued
      started start_result settled 10 starts settles can_end
