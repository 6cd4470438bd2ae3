-- ===== src/CiGate.antt =====
-- src/loop_engineering/ci_gate.py: the CI verdict counts for the exact head only.
use loop_engineering.Prelude.{String, ◌≡◌, ◌↔◌, Option, none, some, [], ◌∷◌, arith}
use loop_engineering.Prelude.{◌==◌, ◌!=◌, string_eq, option_eq, nat_eq, if◌then◌else◌, contains}
use text.Mathlib.TextEquality.{eq_iff}

pub data CiGateStatus : Type 0 where
  pass yield_external failed stale : CiGateStatus

pub record CiObservation : Type 0 where
  pub head_sha : String
  pub conclusion : Option String

unfoldable pub evaluate_exact_head : String → Option CiObservation → CiGateStatus
evaluate_exact_head expected none = yield_external
evaluate_exact_head expected (some evidence) =
    if evidence.head_sha != expected
    then stale
    else if contains (none ∷ some "queued" ∷ some "in_progress" ∷ []) evidence.conclusion
    then yield_external
    else if evidence.conclusion == some "success"
    then pass
    else failed

-- The gate passes exactly for evidence of the expected head that concluded with success.
pub ci_pass_iff :
    (expected : String) (evidence : CiObservation)
    → (evaluate_exact_head expected (some evidence) ≡ pass)
      ↔ ((evidence.head_sha ≡ expected) × (evidence.conclusion ≡ some "success"))
unfolding evaluate_exact_head
ci_pass_iff expected evidence = (
  λ h. (ground arith, ground arith),
  λ h. ground (arith, eq_iff "queued" "success", eq_iff "in_progress" "success"),
)
