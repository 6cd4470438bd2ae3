-- ===== src/WorkStore/Reports.antt =====
-- src/loop_engineering/work_state.py: the outbox of issue reports.
use loop_engineering.Prelude.{
  String, Bool, ◌&&◌, ◌||◌, not, Option, none, some, List, [], ◌∷◌, ◌++◌, map,
}
use loop_engineering.Prelude.{
  ◌==◌, string_eq, nat_eq, option_eq, all, if◌then◌else◌, any, keep, leb, size, is_empty,
}
use loop_engineering.WorkStore.{is_literal, is_nullable, IssueReportOutboxItem, ReportRow, Store}

-- The unique index on a report's work, checkpoint (`''` for none) and kind.
logical_checkpoint : Option String → String
logical_checkpoint none = ""
logical_checkpoint (some identity) = identity

unfoldable pub same_report : IssueReportOutboxItem → ReportRow → Bool
unfolding logical_checkpoint
same_report report row =
    row.item.identity == report.identity
    || (row.item.work_identity == report.work_identity
        && row.item.report_kind == report.report_kind
        && logical_checkpoint row.item.checkpoint_identity
          == logical_checkpoint report.checkpoint_identity)

abbrev pub valid_body : String → Bool
valid_body body = not (is_empty body) && leb (size body) 4000

-- `enqueue_issue_report`
unfoldable pub enqueue_issue_report : IssueReportOutboxItem → Store → Option Store
enqueue_issue_report report s =
    if not (valid_body report.body)
      || not (is_literal report.identity)
      || not (is_literal report.work_identity)
      || not (is_literal report.report_kind)
      || not (is_nullable report.checkpoint_identity)
      || not (is_literal report.body)
    then none
    else if any (same_report report) s.reports
    then some s
    else some
        (record s { reports = s.reports ++ (record { item = report; status = "PENDING" } ∷ []) })

is_pending_report : String → ReportRow → Bool
is_pending_report work row = row.item.work_identity == work && row.status == "PENDING"

-- `pending_issue_reports`, in the order of their recording.
unfoldable pub pending_issue_reports : String → Store → Option (List IssueReportOutboxItem)
unfolding is_pending_report
pending_issue_reports work s =
    let items = map (λ (row : ReportRow). row.item) (keep (is_pending_report work) s.reports) in
    if is_literal work && all (λ (item : IssueReportOutboxItem). valid_body item.body) items
    then some items
    else none

publish_report : String → ReportRow → ReportRow
publish_report identity row =
    if row.item.identity == identity && row.status == "PENDING"
    then record row { status = "PUBLISHED" }
    else row

-- `mark_issue_report_published`
unfoldable pub mark_issue_report_published : String → Store → Option Store
unfolding publish_report
mark_issue_report_published identity s =
    if is_literal identity
    then some (record s { reports = map (publish_report identity) s.reports })
    else none
