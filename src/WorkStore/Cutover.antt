-- ===== src/WorkStore/Cutover.antt =====
-- src/loop_engineering/v2_execution_state.py: the cutover of a repository, with its first planned work.
use loop_engineering.Prelude.{
  String, Bool, true, false, ◌&&◌, ◌||◌, not, Option, none, some, List, [], ◌∷◌, ◌++◌,
}
use loop_engineering.Prelude.{
  ◌==◌, string_eq, nat_eq, option_eq, if◌then◌else◌, contains, any, leb, is_some,
}
use loop_engineering.WorkState.{WorkRecord}
use loop_engineering.V2EffectReadback.{valid_repository}
use loop_engineering.WorkStore.{is_literal, Store, find_work}
use loop_engineering.WorkStore.Records.{breaks_issue}

-- `is_cutover`
unfoldable pub is_cutover : String → Store → Option Bool
is_cutover repository s =
    if valid_repository repository && is_literal repository
    then some (contains s.cutovers repository)
    else none

unfoldable pub planned_work : WorkRecord → WorkRecord
planned_work work = record {
  identity = work.identity;
  repository = work.repository;
  issue_number = work.issue_number;
  issue_revision = work.issue_revision;
  lifecycle = "PLANNED";
  selected_transition = none;
  active_lineage_identity = none;
  latest_task_packet_identity = none;
  latest_checkpoint_identity = none;
}

-- `existing_work` on the row of that identity.
same_issue : WorkRecord → Option WorkRecord → Bool
same_issue work none = false
same_issue work (some row) =
    row.repository == work.repository && row.issue_number == work.issue_number

add_cutover : String → List String → List String
add_cutover repository cutovers =
    if contains cutovers repository then cutovers else cutovers ++ (repository ∷ [])

-- `migrate_candidate`: the answer is whether the work is there, as it was or as it is now inserted.
unfoldable pub migrate_candidate : WorkRecord → Store → Option (Store × Bool)
unfolding same_issue add_cutover
migrate_candidate work s =
    let cut = add_cutover work.repository s.cutovers in
    if not (work.lifecycle == "PLANNED")
      || not (leb 1 work.issue_number)
      || not (valid_repository work.repository)
      || not (is_literal work.identity)
      || not (is_literal work.repository)
      || not (is_literal work.issue_revision)
    then none
    else if is_some (find_work work.identity s.works)
    then if same_issue work (find_work work.identity s.works)
      then some (record s { cutovers = cut }, true)
      else some (s, false)
    else if any (breaks_issue work) s.works
    then none
    else some (record s { works = s.works ++ (planned_work work ∷ []); cutovers = cut }, true)
