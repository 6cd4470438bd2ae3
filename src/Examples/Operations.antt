-- ===== src/Examples/Operations.antt =====
-- src/loop_engineering/v2_operations.py: a packet is issued through the service.
use loop_engineering.Prelude.{◌≡◌, refl, some, [], ◌∷◌}
use loop_engineering.Prelude.{
  string_eq, nat_eq, option_eq, has_nul, size, decimal, any, all, first, strip_prefix,
}
use loop_engineering.WorkState.{WorkRecord}
use loop_engineering.WorkStore.{Store, find_work}
use loop_engineering.WorkStore.Issue.{
  issue_packet, issued_store, planned_packet, issued_identity, V2PacketIssueResult,
}
use mathlib.Core.Option.{bind}
use native.Mathlib.Decide.{ℕ_discrete}
use loop_engineering.Prelude.{insert_by, sort_by, pair_le, text_le, lookup}
use loop_engineering.WriteGate.{agrees}
use loop_engineering.V2EffectReadback.{same_items, target_suffix, same_set}
use loop_engineering.WorkStore.{
  are_pairs, is_json_array, is_json_object, is_literal, clashes, find_packet, has_checkpoint,
  has_clash, has_pending, is_pending_of, is_unresolved, update_works,
}
use loop_engineering.WorkStore.Plan.{valid_plan, checkpoint_identity, packet_identity}
use loop_engineering.WorkStore.Execution.{
  checkpoint_of, column_literals, execution_packet, issued_row, packet, plan_literals, read_row,
}
use loop_engineering.WorkStore.Issue.{
  has_plan_key, is_terminal_status, issue_eligible, issue_eligible_packet, issue_literals,
  issued_point, issued_work, latest_done, may_issue, previous_done, reissued, taken_by,
}
use loop_engineering.V2Resume.{ready}
use loop_engineering.WorkStore.Cutover.{is_cutover}
use loop_engineering.WorkStore.Execution.{work_record, read_work}
use loop_engineering.V2Resume.{WorkDefinitionResult, same_work as same_definition}
use loop_engineering.V2EffectReadback.{valid_repository}
use loop_engineering.Prelude.{split_slash, is_stripped}
use loop_engineering.V2Operations.{
  V2OperationResult, V2OperationStatus, issue_packet as issue_through, issue_cut, issue_on,
  issue_defined, after_issue, packet_result,
}
use loop_engineering.V2Operations.Migrated.{IssuesNew, issue_packet-IssuesNew}
use loop_engineering.Examples.Store.{work, plan, planned, sha256, digits, first_packet}

abbrev cut : Store
cut = record planned { cutovers = "owner/name" ∷ [] }

abbrev definitions : WorkRecord → WorkDefinitionResult
definitions w = record { status = ready; synchronized = some w }

abbrev answered : V2OperationResult
answered = record {
  status = V2OperationStatus.packet_issued;
  detail = some "PACKET_ISSUED";
  work_identity = some "work-7";
  packet_identity = some "packet:8";
}

issues :
    issue_through "owner/name" definitions sha256 digits "work-7" 1 plan "run-1" cut
    ≡ (issued_store work first_packet "run-1" "checkpoint:15" cut, answered)
unfolding issue_through issue_cut issue_on issue_defined after_issue packet_result is_cutover
    work_record same_definition read_work valid_repository split_slash is_stripped issue_packet
    valid_plan size are_pairs has_nul nat_eq same_items agrees all option_eq lookup string_eq
    target_suffix bind strip_prefix same_set issue_literals any first insert_by sort_by decimal
    pair_le text_le checkpoint_of column_literals execution_packet issued_row packet plan_literals
    read_row has_plan_key is_terminal_status issue_eligible issue_eligible_packet issued_identity
    issued_point issued_store issued_work latest_done may_issue planned_packet previous_done
    reissued taken_by is_json_array is_json_object is_literal checkpoint_identity packet_identity
    clashes find_packet find_work has_checkpoint has_clash has_pending is_pending_of is_unresolved
    update_works ℕ_discrete
issues = refl

issue_packet-IssuesNew_example :
    (current : WorkRecord) × (synchronized : WorkRecord) × (r : V2PacketIssueResult) × IssuesNew
      "owner/name" definitions sha256 digits 1 plan "run-1" cut
      (issued_store work first_packet "run-1" "checkpoint:15" cut)
      "work-7"
      current
      synchronized
      r
    × (some "packet:8" ≡ some r.packet.identity)
issue_packet-IssuesNew_example =
    issue_packet-IssuesNew "owner/name" definitions sha256 digits 1 plan "run-1" cut
      (issued_store work first_packet "run-1" "checkpoint:15" cut) "work-7" answered issues refl
