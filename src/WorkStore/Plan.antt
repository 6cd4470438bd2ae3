-- ===== src/WorkStore/Plan.antt =====
-- src/loop_engineering/v2_execution_state.py: the plan of a packet and the tests on it. `sha256` is
-- `hashlib.sha256(...).hexdigest()` of a text, and `digit_of` Unicode's table of digits.
use Prim.Native.Char.{Char}
use loop_engineering.Prelude.{
  ℕ, String, Bool, true, false, ◌<>◌, ◌&&◌, ◌||◌, not, Option, none, some, List, [], ◌∷◌,
}
use loop_engineering.Prelude.{
  ◌==◌, string_eq, if◌then◌else◌, contains, all, is_nil, is_empty, is_some, leb, size, has_nul,
  decimal, lookup, nat_eq, option_eq,
}
use loop_engineering.WorkState.{EffectAttempt}
use loop_engineering.WriteGate.{Mapping, keys}
use loop_engineering.V2EffectReadback.{
  Digit, target_suffix, target_number, same_items, same_set, at,
}
use loop_engineering.WorkStore.{are_pairs}

pub record V2PacketPlan : Type 0 where
  pub transition : String
  pub effect_kind : String
  pub target_identity : String
  pub idempotency_key : String
  pub expected_preconditions : Mapping
  pub expected_effect : Mapping
  pub canonical_design_identities : List String

pub record V2ExecutionPacket : Type 0 where
  pub identity : String
  pub work_identity : String
  pub generation : ℕ
  pub status : String
  pub plan : V2PacketPlan

-- `V2PacketPlan.effect_attempt`
unfoldable pub effect_attempt : V2PacketPlan → String → ℕ → EffectAttempt
effect_attempt plan work_identity generation = record {
  idempotency_key = plan.idempotency_key;
  work_identity = work_identity;
  kind = plan.effect_kind;
  target_identity = plan.target_identity;
  status = "INTENT_RECORDED";
  request_identity = none;
  packet_generation = some generation;
  expected_preconditions = plan.expected_preconditions;
  expected_effect = plan.expected_effect;
}

abbrev nul : String
nul = "\0"

module _ (sha256 : String → String) where
  -- `packet_identity`, for a generation that is not 0.
  unfoldable pub packet_identity : String → ℕ → String
  packet_identity work generation = "packet:" <> sha256 (work <> nul <> decimal generation)

  -- `_checkpoint_identity`
  unfoldable pub checkpoint_identity : String → String → String
  checkpoint_identity packet kind = "checkpoint:" <> sha256 (packet <> nul <> kind)

-- `_target_number(...) is not None`; where `int` raises, so does `_validate_plan`.
is_numbered : (Char → Digit) → String → String → Bool
is_numbered digit_of target prefix = elim (target_number digit_of target prefix) [
  | none ↦ false
  | some number ↦ is_some number
]

abbrev is_issue_state : String → Bool
is_issue_state state = state == "OPEN" || state == "CLOSED"

-- Only where the key `state` is there.
state_fits : Mapping → Bool
state_fits items = elim (lookup "state" items) [ none ↦ true | some state ↦ is_issue_state state ]

valid_kind : (Char → Digit) → V2PacketPlan → Bool
unfolding is_numbered state_fits
valid_kind digit_of plan =
    let before = plan.expected_preconditions in
    let after = plan.expected_effect in
    let target = plan.target_identity in
    if plan.effect_kind == "PUSH"
    then is_some (target_suffix target "branch")
      && same_set (keys before) ("head" ∷ [])
      && same_set (keys after) ("head" ∷ [])
    else if plan.effect_kind == "READY"
    then is_numbered digit_of target "pr"
      && same_set (keys before) ("head" ∷ "draft" ∷ [])
      && same_set (keys after) ("draft" ∷ [])
      && at "draft" before == "true"
      && at "draft" after == "false"
    else if plan.effect_kind == "MERGE"
    then is_numbered digit_of target "pr"
      && same_set (keys before) ("head" ∷ "base" ∷ "state" ∷ [])
      && same_set (keys after) ("state" ∷ [])
      && at "state" before == "OPEN"
      && at "state" after == "MERGED"
    else if plan.effect_kind == "ISSUE_UPDATE"
    then is_numbered digit_of target "issue"
      && same_set (keys before) (keys after)
      && not (is_nil before)
      && all (contains ("state" ∷ "title" ∷ [])) (keys before)
      && state_fits before
      && state_fits after
    else false

valid_design : String → Bool
valid_design value = not (is_empty value) && not (has_nul value) && leb (size value) 1024

-- `_validate_plan` raises nothing.
unfoldable pub valid_plan : (Char → Digit) → V2PacketPlan → Bool
unfolding valid_kind valid_design
valid_plan digit_of plan =
    not (is_empty plan.transition)
    && leb (size plan.transition) 128
    && not (is_empty plan.idempotency_key)
    && leb (size plan.idempotency_key) 256
    && are_pairs plan.expected_preconditions
    && are_pairs plan.expected_effect
    && not (is_nil plan.expected_preconditions)
    && not (is_nil plan.expected_effect)
    && not (same_items plan.expected_preconditions plan.expected_effect)
    && valid_kind digit_of plan
    && all valid_design plan.canonical_design_identities

unfoldable pub same_list {ℓ} : {A : Type ℓ} → (A → A → Bool) → List A → List A → Bool
same_list same [] [] = true
same_list same (x ∷ xs) (y ∷ ys) = same x y && same_list same xs ys
same_list same xs ys = false

unfoldable pub same_pair : String × String → String × String → Bool
same_pair (a, b) (c, d) = a == c && b == d

-- Equality of two `V2PacketPlan`, and of two `V2ExecutionPacket`.
unfoldable pub same_plan : V2PacketPlan → V2PacketPlan → Bool
same_plan a b =
    a.transition == b.transition
    && a.effect_kind == b.effect_kind
    && a.target_identity == b.target_identity
    && a.idempotency_key == b.idempotency_key
    && same_list same_pair a.expected_preconditions b.expected_preconditions
    && same_list same_pair a.expected_effect b.expected_effect
    && same_list (λ x y. x == y) a.canonical_design_identities b.canonical_design_identities

unfoldable pub same_packet : V2ExecutionPacket → V2ExecutionPacket → Bool
same_packet a b =
    a.identity == b.identity
    && a.work_identity == b.work_identity
    && a.generation == b.generation
    && a.status == b.status
    && same_plan a.plan b.plan

-- The dictionary that `build_packet_plan` serialises.
pub record PlanState : Type 0 where
  pub work : String
  pub generation : ℕ
  pub transition : String
  pub kind : String
  pub target : String
  pub before : Mapping
  pub after : Mapping

-- `build_packet_plan`, whose `digest` is `json.dumps` followed by `hashlib.sha256`.
unfoldable pub build_packet_plan :
    (Char → Digit) → (PlanState → String) → PlanState → List String → Option V2PacketPlan
build_packet_plan digit_of digest state designs =
    let plan : V2PacketPlan = record {
      transition = state.transition;
      effect_kind = state.kind;
      target_identity = state.target;
      idempotency_key = "effect:" <> digest state;
      expected_preconditions = state.before;
      expected_effect = state.after;
      canonical_design_identities = designs;
    } in
    if valid_plan digit_of plan then some plan else none
