-- ===== src/Health.antt =====
-- src/loop_engineering/health.py: `plan_improvements`, and of src/loop_engineering/health_state.py the
-- identities that are kept. `sha256` is `hashlib.sha256(...).hexdigest()` of a text, `digest` is
-- `json.dumps` followed by it, and `date_after` is the ISO text of the planning date and some days. The
-- limit of candidates is a natural number; a negative limit plans nothing, as 0 does.
pub mod Planning
pub mod Advance
use Prim.Native.Char.{code}
use loop_engineering.Prelude.{
  ℕ, zero, suc, ◌+◌, ◌≤◌, String, ◌<>◌, Bool, true, false, ◌&&◌, ◌||◌, not, Option, none, some,
  List, [], ◌∷◌, ◌++◌, map, ◌≡◌, refl,
}
use loop_engineering.Prelude.{
  ◌==◌, string_eq, nat_eq, if◌then◌else◌, contains, keep, ltb, decimal, prefix, size, strip_prefix,
  sort_by, pair_le,
}
use loop_engineering.Models.{
  LoopHealthKind, repeated_failure, no_progress, manual_intervention, manual_operation_repeat,
  stale_state_recurrence, duplicate_scheduling, recovery_repetition, ImprovementSeverity, p0, p1,
  p2, LoopHealthEvent, ExistingImprovementIssue, ImprovementCandidate,
}

-- `_THRESHOLDS`
unfoldable pub threshold : LoopHealthKind → ℕ
threshold repeated_failure = 3
threshold _ = 2

-- `_TARGET_DAYS`
target_days : ImprovementSeverity → ℕ
target_days p0 = 2
target_days p1 = 4
target_days p2 = 7

-- `_TITLES`
title_of : LoopHealthKind → String
title_of repeated_failure = "Loop改善: 反復失敗を自動回復可能にする"
title_of no_progress = "Loop改善: 進捗停止の反復を解消する"
title_of manual_intervention = "Loop改善: 反復する人間介入を削減する"
title_of manual_operation_repeat = "Loop改善: 反復手動操作を自動化する"
title_of stale_state_recurrence = "Loop改善: 古い状態の再発を防止する"
title_of duplicate_scheduling = "Loop改善: 重複割当の再発を防止する"
title_of recovery_repetition = "Loop改善: 反復復旧手順を自動化する"

-- `kind.value`
unfoldable pub kind_value : LoopHealthKind → String
kind_value repeated_failure = "REPEATED_FAILURE"
kind_value no_progress = "NO_PROGRESS"
kind_value manual_intervention = "MANUAL_INTERVENTION"
kind_value manual_operation_repeat = "MANUAL_OPERATION_REPEAT"
kind_value stale_state_recurrence = "STALE_STATE_RECURRENCE"
kind_value duplicate_scheduling = "DUPLICATE_SCHEDULING"
kind_value recovery_repetition = "RECOVERY_REPETITION"

severity_of_kind : LoopHealthKind → ImprovementSeverity
severity_of_kind manual_intervention = p2
severity_of_kind duplicate_scheduling = p2
severity_of_kind _ = p1

-- `_severity`
unfoldable pub severity_of : LoopHealthEvent → ImprovementSeverity
unfolding severity_of_kind
severity_of event =
    if event.manual_intervention_required || ltb 0 event.blocked_work_count
    then p0
    else severity_of_kind event.kind

severity_rank : ImprovementSeverity → ℕ
severity_rank p0 = 0
severity_rank p1 = 1
severity_rank p2 = 2

-- `_event_rank(a) <= _event_rank(b)`: the second number of a rank is the count, negated.
unfoldable pub rank_le : LoopHealthEvent → LoopHealthEvent → Bool
unfolding severity_rank
rank_le a b =
    let p = severity_rank (severity_of a) in
    let q = severity_rank (severity_of b) in
    if ltb p q
    then true
    else if ltb q p
    then false
    else if ltb b.occurrence_count a.occurrence_count
    then true
    else if ltb a.occurrence_count b.occurrence_count
    then false
    else pair_le (kind_value a.kind, a.fingerprint) (kind_value b.kind, b.fingerprint)

-- `text.lower() == lower`, for a text of small ASCII letters: only their capitals become them.
lower_is : String → String → Bool
lower_is String.[] String.[] = true
lower_is String.[] (String.◌∷◌ d t) = false
lower_is (String.◌∷◌ c s) String.[] = false
lower_is (String.◌∷◌ c s) (String.◌∷◌ d t) =
    (code c == code d || code c + 32 == code d) && lower_is s t

is_completed : ExistingImprovementIssue → Bool
unfolding lower_is
is_completed issue = lower_is issue.state "open" && issue.project_configured

-- `suppressed`, a set, as a list.
unfoldable pub suppressed_keys : List ExistingImprovementIssue → List String → List String
unfolding is_completed
suppressed_keys issues checkpoint_keys =
    map (λ (i : ExistingImprovementIssue). i.improvement_key) (keep is_completed issues)
    ++ checkpoint_keys

-- `_DURABLE_IDENTITY` after its prefix.
is_hex : String → Bool
is_hex String.[] = true
is_hex (String.◌∷◌ c s) = (within 48 57 || within 97 102) && is_hex s
  where
    within : ℕ → ℕ → Bool
    within low high = not (ltb (code c) low) && not (ltb high (code c))

matches : Option String → Bool
unfolding is_hex
matches none = false
matches (some s) = size s == 24 && is_hex s

module _ (sha256 : String → String) where
  -- `durable_identity`
  unfoldable pub durable_identity : String → String
  unfolding matches
  durable_identity value =
      if matches (strip_prefix "sha256:" value)
      then value
      else "sha256:" <> prefix 24 (sha256 value)

-- The dictionary that `improvement_key` serialises.
pub record ImprovementState : Type 0 where
  pub kind : String
  pub fingerprint : String
  pub affected_work_ids : List ℕ

unfoldable pub number_le : ℕ → ℕ → Bool
number_le a b = not (ltb b a)

module _ (sha256 : String → String) (digest : ImprovementState → String)
    (date_after : ℕ → String) where
  unfoldable pub improvement_key : LoopHealthEvent → String
  unfolding number_le
  improvement_key event = digest (record {
    kind = kind_value event.kind;
    fingerprint = event.fingerprint;
    affected_work_ids = sort_by number_le event.affected_work_ids;
  })

  -- `_problem`
  problem_of : LoopHealthEvent → String
  problem_of event =
      "`"
      <> kind_value event.kind
      <> "` が "
      <> decimal event.occurrence_count
      <> " 回観測されました。同じ原因を通常のLoopで自動回復できるようにしてください。"

  unfoldable pub candidate : LoopHealthEvent → ImprovementCandidate
  unfolding problem_of target_days title_of
  candidate event = record {
    improvement_key = improvement_key event;
    kind = event.kind;
    severity = severity_of event;
    title = title_of event.kind;
    problem = problem_of event;
    evidence_refs = map (durable_identity sha256) event.source_refs;
    affected_work_ids = event.affected_work_ids;
    start_date = date_after 0;
    target_date = date_after (target_days (severity_of event));
  }

  -- The loop over the sorted events, with the number of candidates that may still be added.
  unfoldable pub plan_from : List LoopHealthEvent → ℕ → List String → List ImprovementCandidate
  plan_from events zero suppressed = []
  plan_from [] (suc room) suppressed = []
  plan_from (event ∷ events) (suc room) suppressed =
      let passed = plan_from events (suc room) suppressed in
      let added = candidate event ∷ plan_from events room (improvement_key event ∷ suppressed) in
      if ltb event.occurrence_count (threshold event.kind)
      then passed
      else if contains suppressed (improvement_key event)
      then passed
      else added

  unfoldable pub plan_improvements :
      List LoopHealthEvent
      → List ExistingImprovementIssue
      → List String
      → ℕ
      → List ImprovementCandidate
  plan_improvements events issues checkpoint_keys max_candidates =
      plan_from (sort_by rank_le events) max_candidates (suppressed_keys issues checkpoint_keys)
