-- ===== src/WriteGate.antt =====
-- src/loop_engineering/write_gate.py: whether an intended external change may be sent. A Python
-- `Mapping[str, str]` is the list of its items; `get` finds a key's first item.
pub mod Permission
use loop_engineering.Prelude.{
  ℕ, String, Bool, true, false, ◌&&◌, not, Option, none, some, List, [], ◌∷◌, map,
}
use loop_engineering.Prelude.{
  ◌==◌, ◌!=◌, string_eq, option_eq, if◌then◌else◌, contains, any, all, is_nil, is_some, decimal,
  lookup,
}
use loop_engineering.Models.{
  ConflictKind, forbidden_project_identity, direct_trunk_write_forbidden,
  unknown_write_identity_forbidden, no_op_mutation_forbidden, stale_write_gate,
  mutation_effect_mismatch, WriteIntent, WriteGateResult, LoopEngineConfig, SelfImprovementConfig,
}

abbrev pub Mapping : Type 0
Mapping = List (String × String)

abbrev pub keys : Mapping → List String
keys = map (λ p. p.0)

sink_projects : SelfImprovementConfig → List String
sink_projects sink = elim sink.project_number [
  | none ↦ []
  | some n ↦ if sink.enabled then decimal n ∷ [] else []
]

unfoldable pub allowed_projects : LoopEngineConfig → List String
unfolding sink_projects
allowed_projects config = decimal config.project_number ∷ sink_projects config.self_improvement

-- `fresh.get(key) == value` for every item.
unfoldable pub agrees : Mapping → Mapping → Bool
agrees fresh expected = all (λ p. lookup p.0 fresh == some p.1) expected

abbrev pub required : List String
required = "branch_ref" ∷ "pr_number" ∷ "head_sha" ∷ []

-- `required.difference(dict(expected_preconditions))` is empty
abbrev pub identified : WriteIntent → Bool
identified intent = all (λ key. contains (keys intent.expected_preconditions) key) required

abbrev pub allow : WriteGateResult
allow = record { allowed = true; conflict = none }

abbrev pub refuse : ConflictKind → WriteGateResult
refuse kind = record { allowed = false; conflict = some kind }

unfoldable pub validate_preconditions : WriteIntent → Mapping → LoopEngineConfig → WriteGateResult
validate_preconditions intent fresh config =
    if intent.target_kind == "project"
      && not (contains (allowed_projects config) intent.target_identity)
    then refuse forbidden_project_identity
    else if intent.target_kind == "branch" && intent.target_identity == config.trunk_branch
    then refuse direct_trunk_write_forbidden
    else if intent.target_kind == "branch"
        && intent.mutation_kind == "content"
        && not (identified intent)
    then refuse unknown_write_identity_forbidden
    else if intent.mutation_kind != "verify_effect" && is_nil intent.expected_preconditions
    then refuse no_op_mutation_forbidden
    else if not (agrees fresh intent.expected_preconditions)
    then refuse stale_write_gate
    else if intent.mutation_kind == "verify_effect" && is_nil intent.expected_effect
    then refuse no_op_mutation_forbidden
    else allow

-- `readback_effect is not None and any(readback_effect.get(key) != value ...)`
effect_differs : WriteIntent → Option Mapping → Bool
effect_differs intent none = false
effect_differs intent (some readback) = not (agrees readback intent.expected_effect)

unfoldable pub validate :
    WriteIntent → Mapping → Option Mapping → LoopEngineConfig → WriteGateResult
unfolding effect_differs
validate intent fresh readback config =
    let result = validate_preconditions intent fresh config in
    if not result.allowed
    then result
    else if not (is_nil intent.expected_effect) && not (is_some readback)
    then refuse mutation_effect_mismatch
    else if effect_differs intent readback
    then refuse mutation_effect_mismatch
    else allow
