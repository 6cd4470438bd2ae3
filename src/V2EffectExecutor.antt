-- ===== src/V2EffectExecutor.antt =====
-- src/loop_engineering/v2_effect_executor.py: the recorded effect is sent at most once. The run answers
-- with its result and the commands it sent, in order, or with `none` where `int` raises `ValueError`
-- on a target's digits, which `execute` does not catch. The runner says of a command whether it ran.
pub mod Sending
use mathlib.Core.Option
use loop_engineering.Prelude.{
  ℕ, String, Bool, true, false, ◌&&◌, ◌||◌, not, Option, none, some, List, [], ◌∷◌, ◌<>◌, map,
}
use loop_engineering.Prelude.{
  ◌==◌, ◌!=◌, string_eq, option_eq, if◌then◌else◌, contains, is_nil, is_some, lookup, decimal,
  sort_by, text_le, pair_le,
}
use loop_engineering.Models.{ConflictKind, WriteIntent, WriteGateResult, LoopEngineConfig}
use loop_engineering.WorkState.{EffectAttempt}
use loop_engineering.WriteGate.{Mapping, keys, validate_preconditions}
use loop_engineering.V2Resume.{EffectReadbackStatus, confirmed, no_effect, unknown}
use loop_engineering.V2EffectReadback.{pairs, target_suffix, target_number, same_set, at, Digit}
use Prim.Native.Char.{Char}

pub data V2EffectExecutionStatus : Type 0 where
  executed already_confirmed blocked command_failed : V2EffectExecutionStatus

-- The detail of a refusal by the gate is the gate's conflict.
pub data Detail : Type 0 where
  message : String → Detail
  conflict : ConflictKind → Detail

pub record V2EffectExecutionResult : Type 0 where
  pub status : V2EffectExecutionStatus
  pub detail : Detail

pub record ExecutorPorts : Type 0 where
  pub readback : EffectAttempt → EffectReadbackStatus
  pub runs : List String → Bool
  pub digit_of : Char → Digit

abbrev pub Sent : Type 0
Sent = V2EffectExecutionResult × List (List String)

abbrev pub refused : String → Sent
refused detail = (record { status = blocked; detail = message detail }, [])

gate_detail : Option ConflictKind → Detail
gate_detail none = message "WRITE_GATE_BLOCKED"
gate_detail (some kind) = conflict kind

module _ (ports : ExecutorPorts) (repository : String) (config : LoopEngineConfig) where
  intent_on : EffectAttempt → Mapping → Mapping → String → String → String → WriteIntent
  intent_on attempt before after kind mutation target = record {
    intent_id = attempt.idempotency_key;
    target_kind = kind;
    target_identity = target;
    mutation_kind = mutation;
    expected_preconditions = sort_by pair_le before;
    expected_effect = sort_by pair_le after;
    source_observation_id = attempt.idempotency_key;
  }

  numbered :
      EffectAttempt → Mapping → Mapping → String → String → String → Option (Option WriteIntent)
  unfolding intent_on
  numbered attempt before after prefix kind mutation =
      Option.map (Option.map (λ n. intent_on attempt before after kind mutation (decimal n)))
        (target_number ports.digit_of attempt.target_identity prefix)

  -- `_write_intent`
  unfoldable pub write_intent : EffectAttempt → Mapping → Mapping → Option (Option WriteIntent)
  unfolding intent_on numbered
  write_intent attempt before after =
      if attempt.kind == "PUSH"
      then some (
          Option.map (intent_on attempt before after "branch" "push")
            (target_suffix attempt.target_identity "branch"))
      else if attempt.kind == "READY"
      then numbered attempt before after "pr" "pull_request" "ready"
      else if attempt.kind == "MERGE"
      then numbered attempt before after "pr" "pull_request" "merge"
      else if attempt.kind == "ISSUE_UPDATE"
      then numbered attempt before after "issue" "issue" "issue_update"
      else some none

  -- The fields of an issue's update, from the sorted items; `lower()` of the two states.
  issue_fields : Mapping → Option (List String)
  issue_fields [] = some []
  issue_fields ((key, value) ∷ rest) =
      let fields = issue_fields rest in
      if key == "title"
      then Option.map (λ l. "--raw-field" ∷ ("title=" <> value) ∷ l) fields
      else if key == "state" && value == "OPEN"
      then Option.map (λ l. "--raw-field" ∷ "state=open" ∷ l) fields
      else if key == "state" && value == "CLOSED"
      then Option.map (λ l. "--raw-field" ∷ "state=closed" ∷ l) fields
      else none

  push_command : Mapping → Mapping → Option String → Option (List String)
  push_command before after none = none
  push_command before after (some branch) =
      if not (same_set (keys before) ("head" ∷ [])) || not (same_set (keys after) ("head" ∷ []))
      then none
      else some ("git" ∷ "push" ∷ "origin" ∷ (at "head" after <> ":refs/heads/" <> branch) ∷ [])

  ready_command : Option ℕ → Option (List String)
  ready_command number =
      Option.map (λ n. "gh" ∷ "pr" ∷ "ready" ∷ decimal n ∷ "--repo" ∷ repository ∷ []) number

  merge_command : Mapping → Option ℕ → Option (List String)
  merge_command before none = none
  merge_command before (some n) =
      Option.map
        (λ head.
          "gh"
          ∷ "pr"
          ∷ "merge"
          ∷ decimal n
          ∷ "--repo"
          ∷ repository
          ∷ "--merge"
          ∷ "--match-head-commit"
          ∷ head
          ∷ [])
        (lookup "head" before)

  issue_command : Mapping → Mapping → Option ℕ → Option (List String)
  unfolding issue_fields
  issue_command before after none = none
  issue_command before after (some n) =
      if not (same_set (keys before) (keys after)) || is_nil after
      then none
      else Option.map
          (λ fields.
            "gh"
            ∷ "api"
            ∷ ("repos/" <> repository <> "/issues/" <> decimal n)
            ∷ "--method"
            ∷ "PATCH"
            ∷ fields)
          (issue_fields (sort_by pair_le after))

  -- `_command`
  unfoldable pub command : EffectAttempt → Mapping → Mapping → Option (Option (List String))
  unfolding push_command ready_command merge_command issue_command
  command attempt before after =
      if attempt.kind == "PUSH"
      then some (push_command before after (target_suffix attempt.target_identity "branch"))
      else if attempt.kind == "READY"
      then Option.map ready_command (target_number ports.digit_of attempt.target_identity "pr")
      else if attempt.kind == "MERGE"
      then Option.map (merge_command before)
          (target_number ports.digit_of attempt.target_identity "pr")
      else if attempt.kind == "ISSUE_UPDATE"
      then Option.map (issue_command before after)
          (target_number ports.digit_of attempt.target_identity "issue")
      else some none

  -- `self.runner.run(command)` and what becomes of it.
  unfoldable pub send : Option (List String) → Sent
  send none = refused "EFFECT_COMMAND_INVALID"
  send (some args) =
      if ports.runs args
      then (record { status = executed; detail = message "EFFECT_SENT" }, args ∷ [])
      else (record { status = command_failed; detail = message "EFFECT_COMMAND_FAILED" }, args ∷ [])

  by_intent : EffectAttempt → Mapping → Mapping → Option WriteIntent → Option Sent
  unfolding send gate_detail
  by_intent attempt before after none = some (refused "EFFECT_TARGET_INVALID")
  by_intent attempt before after (some intent) =
      let gate = validate_preconditions intent before config in
      if not gate.allowed
      then some (record { status = blocked; detail = gate_detail gate.conflict }, [])
      else Option.map send (command attempt before after)

  -- `none`: `_write_intent` raised.
  by_target : EffectAttempt → Mapping → Mapping → Option (Option WriteIntent) → Option Sent
  unfolding by_intent
  by_target attempt before after none = none
  by_target attempt before after (some intent) = by_intent attempt before after intent

  by_readback : EffectAttempt → Mapping → Mapping → EffectReadbackStatus → Option Sent
  unfolding by_target
  by_readback attempt before after confirmed =
      some (record { status = already_confirmed; detail = message "EFFECT_ALREADY_CONFIRMED" }, [])
  by_readback attempt before after unknown = some (refused "EFFECT_PRECONDITION_UNPROVEN")
  by_readback attempt before after no_effect =
      by_target attempt before after (write_intent attempt before after)

  by_expectation : EffectAttempt → Option Mapping → Option Mapping → Option Sent
  unfolding by_readback
  by_expectation attempt (some before) (some after) =
      if is_nil before || is_nil after
      then some (refused "EFFECT_EXPECTATION_INVALID")
      else by_readback attempt before after (ports.readback attempt)
  by_expectation attempt _ _ = some (refused "EFFECT_EXPECTATION_INVALID")

  -- `GitHubV2EffectExecutor.execute`
  unfoldable pub execute : EffectAttempt → Option Sent
  unfolding by_expectation
  execute attempt =
      if attempt.status != "INTENT_RECORDED"
      then some (refused "EFFECT_STATUS_NOT_EXECUTABLE")
      else by_expectation attempt (pairs attempt.expected_preconditions)
          (pairs attempt.expected_effect)
