-- ===== src/Examples/Effects.antt =====
-- src/loop_engineering/v2_effect_readback.py and src/loop_engineering/v2_effect_executor.py on a push.
use Prim.Native.Char.{Char}
use mathlib.Core.Option
use loop_engineering.Prelude.{String, true, ◌≡◌, ◌≢◌, refl, some, List, [], ◌∷◌, arith}
use loop_engineering.Prelude.{
  string_eq, nat_eq, option_eq, all, size, has_nul, strip_prefix, split_slash, is_stripped, lookup,
  sort_by,
}
use loop_engineering.WriteGate.{Mapping, validate_preconditions, agrees}
use loop_engineering.V2Resume.{EffectReadbackStatus}
use loop_engineering.V2EffectReadback.{
  json_item, no_items, string, object, Digit, ReadbackPorts, member, pairs, pairs_from,
  target_suffix, valid_repository, valid_parts, same_items, same_set, compare_scalar, observed_head,
  read_push, push_status, readback,
}
use loop_engineering.V2EffectReadback.Definite.{
  IsReadable, HasKind, IsPushRead, readback_definite, push_iff,
}
use loop_engineering.V2EffectExecutor.{
  ExecutorPorts, V2EffectExecutionStatus, V2EffectExecutionResult, message, write_intent, command,
  send, execute,
}
use loop_engineering.V2EffectExecutor.Sending.{
  Outcome, IsBranchPush, execute-Outcome, push_off_trunk,
}
use loop_engineering.Examples.Resume.{attempt}
use loop_engineering.Examples.Mission.{config}

abbrev no_digits : Char → Digit
no_digits c = Digit.no_digit

-- GitHub, where every branch has the same head.
abbrev github : String → ReadbackPorts
github head = record {
  run = λ args. some head;
  loads = λ raw.
      some (object (json_item "object" (object (json_item "sha" (string raw) no_items)) no_items));
  quote = λ s. s;
  digit_of = no_digits;
}

confirmed_test :
    (readback (github "def") "owner/name" (attempt "e1") ≡ EffectReadbackStatus.confirmed)
    × (readback (github "abc") "owner/name" (attempt "e1") ≡ EffectReadbackStatus.no_effect)
    × (readback (github "xyz") "owner/name" (attempt "e1") ≡ EffectReadbackStatus.unknown)
unfolding readback valid_repository valid_parts split_slash is_stripped has_nul size pairs
    pairs_from same_items agrees all lookup read_push push_status target_suffix strip_prefix
    same_set observed_head member compare_scalar string_eq nat_eq option_eq Option.bind
confirmed_test = (refl, refl, refl)

definite : readback (github "def") "owner/name" (attempt "e1") ≢ EffectReadbackStatus.unknown
definite e = ground (arith, confirmed_test.0)

readback_definite_example :
    (before : Mapping) × (after : Mapping) × IsReadable
      (github "def")
      "owner/name"
      (attempt "e1")
      before
      after
    × HasKind (github "def") "owner/name" "PUSH"
readback_definite_example = readback_definite (github "def") "owner/name" (attempt "e1") definite

is_no_effect : EffectReadbackStatus.no_effect ≢ EffectReadbackStatus.unknown
is_no_effect e = ground arith

push_iff_example :
    IsPushRead (github "abc") "owner/name" EffectReadbackStatus.no_effect (attempt "e1")
push_iff_example =
    (push_iff (github "abc") "owner/name" (attempt "e1") EffectReadbackStatus.no_effect refl
        is_no_effect).0
      confirmed_test.1

abbrev ports : ExecutorPorts
ports = record {
  readback = readback (github "abc") "owner/name";
  runs = λ args. true;
  digit_of = no_digits;
}

abbrev push : List String
push = "git" ∷ "push" ∷ "origin" ∷ "def:refs/heads/work/7" ∷ []

abbrev sent : V2EffectExecutionResult
sent = record { status = V2EffectExecutionStatus.executed; detail = message "EFFECT_SENT" }

execute_test : execute ports "owner/name" config (attempt "e1") ≡ some (sent, push ∷ [])
unfolding execute send write_intent command validate_preconditions readback valid_repository
    valid_parts split_slash is_stripped has_nul size pairs pairs_from same_items agrees all lookup
    read_push push_status target_suffix strip_prefix same_set observed_head member compare_scalar
    sort_by string_eq nat_eq option_eq Option.bind
execute_test = refl

execute-Outcome_example : Outcome ports "owner/name" config (attempt "e1") (sent, push ∷ [])
execute-Outcome_example =
    execute-Outcome ports "owner/name" config (attempt "e1") (sent, push ∷ []) execute_test

push_off_trunk_example : IsBranchPush ports "owner/name" config (attempt "e1") push
push_off_trunk_example =
    push_off_trunk ports "owner/name" config (attempt "e1") sent push refl execute_test
