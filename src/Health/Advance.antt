-- ===== src/Health/Advance.antt =====
-- src/loop_engineering/health.py: `advance_health`, and of src/loop_engineering/health_state.py
-- `canonicalize_event`. The dict of events is the list of its values, in order, each under its kind and
-- fingerprint. `none` is the `ValueError` of an event out of bounds.
pub mod Latest
pub mod Growth
use mathlib.Core.Option
use loop_engineering.Prelude.{
  ℕ, suc, String, ◌<>◌, Bool, true, false, ◌&&◌, ◌||◌, not, Option, none, some, List, [], ◌∷◌, ◌++◌,
  map,
}
use loop_engineering.Prelude.{
  Eq, ◌==◌, string_eq, nat_eq, if◌then◌else◌, all, keep, is_empty, is_nil, leb, ltb, length, size,
  sort_by, text_le, pair_le, from_keys,
}
use loop_engineering.Models.{
  ConflictKind, RunDisposition, intervention_required, LoopHealthKind, manual_intervention,
  stale_state_recurrence, duplicate_scheduling, LoopHealthEvent,
}
use loop_engineering.Health.{durable_identity, kind_value, number_le}

HealthKind-discrete : Discrete LoopHealthKind
HealthKind-discrete = hlevel

instance unfoldable pub health_kind_eq : Eq LoopHealthKind
unfolding HealthKind-discrete
health_kind_eq = record { dec = HealthKind-discrete }

-- `conflict.value`
conflict_value : ConflictKind → String
conflict_value ConflictKind.authority_unavailable = "AUTHORITY_UNAVAILABLE"
conflict_value ConflictKind.project_authority_unavailable = "PROJECT_AUTHORITY_UNAVAILABLE"
conflict_value ConflictKind.canonical_design_unresolved = "CANONICAL_DESIGN_UNRESOLVED"
conflict_value ConflictKind.canonical_design_mismatch = "CANONICAL_DESIGN_MISMATCH"
conflict_value ConflictKind.multiple_active_lineages = "MULTIPLE_ACTIVE_LINEAGES"
conflict_value ConflictKind.unknown_lineage = "UNKNOWN_LINEAGE"
conflict_value ConflictKind.base_sha_mismatch = "BASE_SHA_MISMATCH"
conflict_value ConflictKind.head_sha_mismatch = "HEAD_SHA_MISMATCH"
conflict_value ConflictKind.unexplained_sha_change = "UNEXPLAINED_SHA_CHANGE"
conflict_value ConflictKind.checkpoint_live_mismatch = "CHECKPOINT_LIVE_MISMATCH"
conflict_value ConflictKind.mission_checkpoint_stale = "MISSION_CHECKPOINT_STALE"
conflict_value ConflictKind.review_head_mismatch = "REVIEW_HEAD_MISMATCH"
conflict_value ConflictKind.ci_head_mismatch = "CI_HEAD_MISMATCH"
conflict_value ConflictKind.forbidden_project_identity = "FORBIDDEN_PROJECT_IDENTITY"
conflict_value ConflictKind.stale_write_gate = "STALE_WRITE_GATE"
conflict_value ConflictKind.mutation_effect_mismatch = "MUTATION_EFFECT_MISMATCH"
conflict_value ConflictKind.direct_trunk_write_forbidden = "DIRECT_TRUNK_WRITE_FORBIDDEN"
conflict_value ConflictKind.no_op_mutation_forbidden = "NO_OP_MUTATION_FORBIDDEN"
conflict_value ConflictKind.unknown_write_identity_forbidden = "UNKNOWN_WRITE_IDENTITY_FORBIDDEN"

-- The set of `stale_conflicts`.
unfoldable pub is_stale : ConflictKind → Bool
is_stale ConflictKind.mission_checkpoint_stale = true
is_stale ConflictKind.checkpoint_live_mismatch = true
is_stale ConflictKind.base_sha_mismatch = true
is_stale ConflictKind.head_sha_mismatch = true
is_stale ConflictKind.unexplained_sha_change = true
is_stale ConflictKind.review_head_mismatch = true
is_stale ConflictKind.ci_head_mismatch = true
is_stale _ = false

is_intervention : RunDisposition → Bool
is_intervention intervention_required = true
is_intervention _ = false

valid_text : String → Bool
valid_text value = not (is_empty value) && leb (size value) 160

-- `_validate_event` raises nothing.
unfoldable pub valid_event : LoopHealthEvent → Bool
unfolding valid_text
valid_event event =
    valid_text event.fingerprint
    && leb 1 event.occurrence_count
    && leb event.occurrence_count 1000000
    && leb event.blocked_work_count 1000000
    && leb (length event.affected_work_ids) 32
    && leb (length event.source_refs) 32
    && all (λ work. leb 1 work) event.affected_work_ids
    && all valid_text event.source_refs

-- `events[(event.kind, event.fingerprint)]` is the other's key.
unfoldable pub same_key : LoopHealthEvent → LoopHealthEvent → Bool
same_key a b = a.kind == b.kind && a.fingerprint == b.fingerprint

-- `events[key] = event`
unfoldable pub put : LoopHealthEvent → List LoopHealthEvent → List LoopHealthEvent
put event [] = event ∷ []
put event (e ∷ events) =
    let rest = put event events in if same_key e event then event ∷ events else e ∷ rest

-- The dict comprehension, from the events taken so far.
unfoldable pub indexed : List LoopHealthEvent → List LoopHealthEvent → List LoopHealthEvent
indexed taken [] = taken
indexed taken (event ∷ events) = indexed (put event taken) events

-- The event that `_increment` writes over a prior one.
unfoldable pub merged : LoopHealthEvent → LoopHealthEvent → LoopHealthEvent
merged prior event = record {
  kind = event.kind;
  fingerprint = event.fingerprint;
  occurrence_count = suc prior.occurrence_count;
  affected_work_ids =
      sort_by number_le (from_keys (prior.affected_work_ids ++ event.affected_work_ids));
  source_refs = from_keys (prior.source_refs ++ event.source_refs);
  blocked_work_count =
      if ltb prior.blocked_work_count event.blocked_work_count
      then event.blocked_work_count
      else prior.blocked_work_count;
  manual_intervention_required =
      prior.manual_intervention_required || event.manual_intervention_required;
}

-- `events[key] = ...` of `_increment`, for an event that occurs the first time.
unfoldable pub occur : LoopHealthEvent → List LoopHealthEvent → List LoopHealthEvent
occur event [] = event ∷ []
occur event (e ∷ events) =
    let rest = occur event events in if same_key e event then merged e event ∷ events else e ∷ rest

-- The calls of `_increment`, in order.
unfoldable pub occur_all : List LoopHealthEvent → List LoopHealthEvent → List LoopHealthEvent
occur_all [] events = events
occur_all (event ∷ later) events = occur_all later (occur event events)

join_with : String → List String → String
join_with separator [] = ""
join_with separator (s ∷ []) = s
join_with separator (s ∷ t ∷ rest) = s <> separator <> join_with separator (t ∷ rest)

affected : Option ℕ → List ℕ
affected none = []
affected (some work) = work ∷ []

key_le : LoopHealthEvent → LoopHealthEvent → Bool
key_le a b = pair_le (kind_value a.kind, a.fingerprint) (kind_value b.kind, b.fingerprint)

module _ (sha256 : String → String) where
  unfoldable pub canonicalize_event : LoopHealthEvent → Option LoopHealthEvent
  canonicalize_event event =
      if valid_event event
      then some (record event {
        fingerprint = durable_identity sha256 event.fingerprint;
        source_refs = map (durable_identity sha256) event.source_refs;
      })
      else none

  unfoldable pub canonicalized : List LoopHealthEvent → Option (List LoopHealthEvent)
  canonicalized [] = some []
  canonicalized (event ∷ events) =
      Option.bind (canonicalize_event event) (λ e. Option.map (λ es. e ∷ es) (canonicalized events))

  -- The event that `_increment` writes where there is no prior one.
  new_event : LoopHealthKind → String → Option ℕ → List String → ℕ → Bool → LoopHealthEvent
  unfolding affected
  new_event kind fingerprint work refs blocked manual = record {
    kind = kind;
    fingerprint = durable_identity sha256 fingerprint;
    occurrence_count = 1;
    affected_work_ids = affected work;
    source_refs = map (durable_identity sha256) refs;
    blocked_work_count = blocked;
    manual_intervention_required = manual;
  }

  duplicate_event : Option ℕ → LoopHealthEvent
  unfolding new_event
  duplicate_event work =
      new_event duplicate_scheduling (durable_identity sha256 "same-schedule-key") work
        ("supervisor:duplicate-suppressed" ∷ []) 0 false

  stale_event : Option ℕ → ConflictKind → LoopHealthEvent
  unfolding new_event
  stale_event work conflict =
      new_event stale_state_recurrence (durable_identity sha256 (conflict_value conflict)) work
        (("conflict:" <> conflict_value conflict) ∷ []) 0 false

  -- `",".join(sorted(...)) or "human-authority"`
  authority_text : List ConflictKind → String
  unfolding join_with
  authority_text conflicts =
      let text = join_with "," (sort_by text_le (map conflict_value conflicts)) in
      if is_empty text then "human-authority" else text

  manual_event : Option ℕ → List ConflictKind → LoopHealthEvent
  unfolding new_event authority_text
  manual_event work conflicts =
      new_event manual_intervention (durable_identity sha256 (authority_text conflicts)) work
        (map (λ c. durable_identity sha256 ("conflict:" <> conflict_value c)) conflicts)
        (if is_nil (affected work) then 0 else 1) true

  -- The events that occurred in this decision, in the order of `_increment`.
  unfoldable pub occurred :
      List ConflictKind → RunDisposition → Bool → Option ℕ → List LoopHealthEvent
  unfolding duplicate_event stale_event manual_event is_intervention conflict_value authority_text
      new_event affected
  occurred conflicts disposition duplicate_suppressed work =
      (if duplicate_suppressed then duplicate_event work ∷ [] else [])
      ++ map (stale_event work) (keep is_stale conflicts)
      ++ (if is_intervention disposition then manual_event work conflicts ∷ [] else [])

  unfoldable pub advance_health :
      List LoopHealthEvent
      → List ConflictKind
      → RunDisposition
      → Bool
      → Option ℕ
      → Option (List LoopHealthEvent)
  unfolding key_le
  advance_health previous conflicts disposition duplicate_suppressed work =
      Option.map
        (λ events. sort_by key_le (
          occur_all (occurred conflicts disposition duplicate_suppressed work) (indexed [] events)))
        (canonicalized previous)
