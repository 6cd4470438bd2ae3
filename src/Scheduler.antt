-- ===== src/Scheduler.antt =====
-- src/loop_engineering/scheduler.py: the choice of a work, its canonical lineage, and the key under
-- which a transition is scheduled once. `digest` is `json.dumps` followed by `hashlib.sha256`.
pub mod Choice
use loop_engineering.Prelude.{
  ℕ, String, Bool, true, false, ◌&&◌, ◌||◌, not, Option, none, some, List, [], ◌∷◌, map,
}
use loop_engineering.Prelude.{
  ◌==◌, string_eq, option_eq, nat_eq, if◌then◌else◌, contains, keep, first, sort_by, text_le,
  pair_le,
}
use loop_engineering.Models.{
  LineageClassification, canonical, superseded, validation_only, ci_only, abandoned, unknown,
  is_canonical, WorkSnapshot, LineageSnapshot, ObservationEpoch, dependency_ready,
}
use loop_engineering.Selection.{SelectionKey, priority_rank, progress_rank, least}

pub record LineageState : Type 0 where
  pub classification : Option String
  pub base_sha : Option String
  pub head_sha : Option String
  pub ci_head_sha : Option String
  pub review_head_sha : Option String

-- The dictionary that `schedule_key` serialises.
pub record ScheduleState : Type 0 where
  pub canonical_designs : List (String × String)
  pub issue : ℕ
  pub dependency_completion_identities : List String
  pub lineage : LineageState
  pub mission : String × String × Option String
  pub priority : Option String
  pub project_number : ℕ
  pub project_status : String
  pub source_revision : String
  pub work_checkpoint_identity : Option String
  pub transition : String

unfoldable pub selection_key : WorkSnapshot → SelectionKey
unfolding priority_rank progress_rank
selection_key w = record {
  priority = priority_rank w.priority;
  progress = progress_rank (some w.project_status);
  issue = w.issue_number;
}

abbrev pub is_candidate : WorkSnapshot → Bool
is_candidate w = dependency_ready w && w.actionable

-- The list comprehension and the `min` after it.
abbrev pub best_candidate : ObservationEpoch → Option WorkSnapshot
best_candidate epoch = least selection_key (keep is_candidate epoch.works)

abbrev pub current_work : ObservationEpoch → Option WorkSnapshot
current_work epoch = first (λ w. some w.issue_number == epoch.mission.current_work_id) epoch.works

current_or_best : ObservationEpoch → Option WorkSnapshot → Option WorkSnapshot
current_or_best epoch none = best_candidate epoch
current_or_best epoch (some current) =
    if is_candidate current then some current else best_candidate epoch

unfoldable pub select_work : ObservationEpoch → Option WorkSnapshot
unfolding current_or_best
select_work epoch = current_or_best epoch (current_work epoch)

unfoldable pub canonical_lineage : ObservationEpoch → ℕ → Option LineageSnapshot
canonical_lineage epoch issue_number =
    first (λ l. l.work_issue == issue_number && is_canonical l.classification) epoch.lineages

-- `classification.value`
classification_value : LineageClassification → String
classification_value canonical = "CANONICAL"
classification_value superseded = "SUPERSEDED"
classification_value validation_only = "VALIDATION_ONLY"
classification_value ci_only = "CI_ONLY"
classification_value abandoned = "ABANDONED"
classification_value unknown = "UNKNOWN"

lineage_state : Option LineageSnapshot → LineageState
unfolding classification_value
lineage_state none = record {
  classification = none;
  base_sha = none;
  head_sha = none;
  ci_head_sha = none;
  review_head_sha = none;
}
lineage_state (some l) = record {
  classification = some (classification_value l.classification);
  base_sha = l.base_sha;
  head_sha = l.head_sha;
  ci_head_sha = l.ci_head_sha;
  review_head_sha = l.review_head_sha;
}

unfoldable pub schedule_state : ObservationEpoch → WorkSnapshot → String → ScheduleState
unfolding lineage_state
schedule_state epoch work transition = record {
  canonical_designs =
      sort_by pair_le (map (λ d. (d.identity.stable_id, d.live_blob_sha)) epoch.canonical_designs);
  issue = work.issue_number;
  dependency_completion_identities = sort_by text_le work.dependency_completion_identities;
  lineage = lineage_state (canonical_lineage epoch work.issue_number);
  mission = (
    epoch.mission.identity.stable_id, epoch.mission.identity.source_revision,
    epoch.mission.checkpoint_identity,
  );
  priority = work.priority;
  project_number = epoch.project_number;
  project_status = work.project_status;
  source_revision = work.identity.source_revision;
  work_checkpoint_identity = work.checkpoint_identity;
  transition = transition;
}

module _ (digest : ScheduleState → String) where
  unfoldable pub schedule_key : ObservationEpoch → WorkSnapshot → String → String
  unfolding schedule_state
  schedule_key epoch work transition = digest (schedule_state epoch work transition)

unfoldable pub is_duplicate : ObservationEpoch → String → Bool
is_duplicate epoch key = contains epoch.checkpoint_schedule_keys key
