-- ===== src/ReviewGate.antt =====
-- src/loop_engineering/review_gate.py: the review verdict counts for the exact head only.
use loop_engineering.Prelude.{ℕ, String, ◌&&◌, ◌≡◌, ◌↔◌, Option, none, some, arith}
use loop_engineering.Prelude.{◌==◌, ◌!=◌, string_eq, option_eq, nat_eq, if◌then◌else◌}

pub data ReviewGateStatus : Type 0 where
  pass request_changes escalate not_run stale : ReviewGateStatus

-- `blocking_count` is an `int`; the gate only compares it with 0.
pub record ReviewEvidence : Type 0 where
  pub reviewed_head_sha : String
  pub verdict : String
  pub blocking_count : ℕ

unfoldable pub evaluate_exact_head : String → Option ReviewEvidence → ReviewGateStatus
evaluate_exact_head expected none = not_run
evaluate_exact_head expected (some evidence) =
    if evidence.reviewed_head_sha != expected
    then stale
    else if evidence.verdict == "PASS" && evidence.blocking_count == 0
    then pass
    else if evidence.verdict == "REQUEST_CHANGES"
    then request_changes
    else if evidence.verdict == "ESCALATE"
    then escalate
    else not_run

-- The gate passes exactly for a PASS verdict of the expected head with no blocking finding.
pub review_pass_iff :
    (expected : String) (evidence : ReviewEvidence)
    → (evaluate_exact_head expected (some evidence) ≡ pass) ↔ (
        (evidence.reviewed_head_sha ≡ expected)
        × (evidence.verdict ≡ "PASS")
        × (evidence.blocking_count ≡ 0))
unfolding evaluate_exact_head
review_pass_iff expected evidence =
    (λ h. (ground arith, ground arith, ground arith), λ h. ground arith)
