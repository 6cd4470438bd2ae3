-- ===== src/Examples/Store.antt =====
-- src/loop_engineering/v2_execution_state.py on the store of one work: a packet is issued.
use Prim.Native.Char.{Char}
use loop_engineering.Prelude.{String, true, false, ◌≡◌, refl, none, some, [], ◌∷◌}
use loop_engineering.Prelude.{
  string_eq, nat_eq, option_eq, has_nul, size, decimal, any, all, first, keep, strip_prefix,
}
use loop_engineering.WorkState.{WorkRecord}
use loop_engineering.V2EffectReadback.{Digit}
use loop_engineering.WorkStore.{Store, find_work}
use loop_engineering.WorkStore.Plan.{V2PacketPlan, V2ExecutionPacket}
use loop_engineering.WorkStore.Issue.{
  issue_packet, issued_store, planned_packet, issued_identity, V2PacketIssueResult,
}
use mathlib.Core.Option.{bind}
use native.Mathlib.Decide.{ℕ_discrete}
use loop_engineering.Prelude.{insert_by, sort_by, pair_le, text_le, lookup}
use loop_engineering.WriteGate.{agrees}
use loop_engineering.V2EffectReadback.{same_items, target_suffix, same_set}
use loop_engineering.WorkStore.{
  are_pairs, is_json_array, is_json_object, is_literal, clashes, find_packet, find_checkpoint,
  has_checkpoint, has_clash, has_pending, is_pending_of, is_unresolved, update_works,
}
use loop_engineering.WorkStore.Plan.{valid_plan, checkpoint_identity, packet_identity}
use loop_engineering.WorkStore.Execution.{
  checkpoint_of, column_literals, execution_packet, issued_row, packet, plan_literals, read_row,
}
use loop_engineering.WorkStore.Issue.{
  has_plan_key, is_terminal_status, issue_eligible, issue_eligible_packet, issue_literals,
  issued_point, issued_work, latest_done, may_issue, previous_done, reissued, taken_by,
}
use loop_engineering.WorkState.{RecoveredWork}
use loop_engineering.V2Resume.{ready, ResumePorts, EffectReadbackStatus, resume}
use loop_engineering.V2Resume.Readiness.{SameWork}
use loop_engineering.WorkStore.Recovery.{
  recover, recover_found, recovered, read_packet, by_identity, pending_effects,
}
use loop_engineering.WorkStore.Issued.{issued_recovery, issue_packet-resumes}
use loop_engineering.WorkStore.Again.{IsSorted, issue_packet-again}

abbrev pub work : WorkRecord
work = record {
  identity = "work-7";
  repository = "owner/name";
  issue_number = 7;
  issue_revision = "r1";
  lifecycle = "PLANNED";
  selected_transition = none;
  active_lineage_identity = none;
  latest_task_packet_identity = none;
  latest_checkpoint_identity = none;
}

abbrev pub plan : V2PacketPlan
plan = record {
  transition = "IMPLEMENT";
  effect_kind = "PUSH";
  target_identity = "branch:work/7";
  idempotency_key = "effect:1";
  expected_preconditions = ("head", "a") ∷ [];
  expected_effect = ("head", "b") ∷ [];
  canonical_design_identities = [];
}

abbrev pub planned : Store
planned = record {
  works = work ∷ [];
  packets = [];
  checkpoints = [];
  effects = [];
  leases = [];
  reports = [];
  cutovers = [];
  now = 100;
}

abbrev pub sha256 : String → String
sha256 text = decimal (size text)

abbrev pub first_packet : V2ExecutionPacket
first_packet = record {
  identity = "packet:8";
  work_identity = "work-7";
  generation = 1;
  status = "ISSUED";
  plan = plan;
}

abbrev pub issued : Store
issued = issued_store work first_packet "run-1" "checkpoint:15" planned

abbrev pub issue_result : V2PacketIssueResult
issue_result = record {
  packet = first_packet;
  checkpoint_identity = "checkpoint:15";
  already_issued = false;
}

abbrev pub digits : Char → Digit
digits c = Digit.no_digit

pub issues :
    issue_packet sha256 digits work 1 plan "run-1" planned ≡ some (issued, some issue_result)
unfolding issue_packet valid_plan size are_pairs has_nul nat_eq same_items agrees all option_eq
    lookup string_eq target_suffix bind strip_prefix same_set issue_literals any first insert_by
    sort_by decimal pair_le text_le checkpoint_of column_literals execution_packet issued_row packet
    plan_literals read_row has_plan_key is_terminal_status issue_eligible issue_eligible_packet
    issued_identity issued_point issued_store issued_work latest_done may_issue planned_packet
    previous_done reissued taken_by is_json_array is_json_object is_literal checkpoint_identity
    packet_identity clashes find_packet find_work has_checkpoint has_clash has_pending is_pending_of
    is_unresolved update_works ℕ_discrete
issues = refl

abbrev pub ports : RecoveredWork → ResumePorts
ports recovered = record {
  recover = λ id. some recovered;
  synchronize = λ w. record { status = ready; synchronized = some w };
  readback = λ e. EffectReadbackStatus.confirmed;
}

pub same_work : (w : WorkRecord) → SameWork w w
same_work w = record {
  identity = refl;
  repository = refl;
  issue_number = refl;
  issue_revision = refl;
}

abbrev issued_first : RecoveredWork
issued_first = issued_recovery work first_packet "run-1" "checkpoint:15" work

recovers_issued : recover "work-7" issued ≡ some (some issued_first)
unfolding recover recover_found recovered read_packet by_identity pending_effects keep
    issued_recovery issued_store issued_work issued_row issued_point checkpoint_of all is_literal
    has_nul size nat_eq string_eq find_work find_packet find_checkpoint first update_works
    is_pending_of is_unresolved ℕ_discrete
recovers_issued = refl

issue_packet-resumes_example : (resume (ports issued_first) "work-7").0.status ≡ ready
issue_packet-resumes_example =
    issue_packet-resumes sha256 digits work 1 plan "run-1" planned issued issue_result
      (ports issued_first) issues refl refl recovers_issued
      (λ v found. (refl, (v.work, refl, same_work v.work)))

issue_packet-again_example :
    issue_packet sha256 digits work 1 plan "run-1" issued
    ≡ some (issued, some (record issue_result { already_issued = true }))
unfolding sort_by
issue_packet-again_example =
    issue_packet-again sha256 digits work 1 plan "run-1" planned issued issue_result issues refl
      sorted
  where
    sorted : IsSorted plan
    sorted = record { preconditions = refl; effect = refl }
