-- ===== src/Examples/Mission.antt =====
-- src/loop_engineering/supervisor.py and the gates on one epoch.
use loop_engineering.Prelude.{String, ◌<>◌, true, false, ◌≡◌, refl, ◌↔◌, none, some, [], ◌∷◌}
use loop_engineering.Prelude.{
  string_eq, nat_eq, option_eq, any, all, keep, first, min_from, from_keys, count, All, lookup,
}
use loop_engineering.Models.{
  SourceIdentity, MissionSnapshot, WorkSnapshot, LineageSnapshot, LineageClassification,
  CanonicalDesignSnapshot, ObservationEpoch, LoopEngineConfig, WriteIntent, RunDisposition,
  dependency_ready,
}
use loop_engineering.Selection.{least}
use loop_engineering.Reconciliation.{reconcile_work, reconcile_global}
use loop_engineering.Reconciliation.Clean.{
  IsClean, IsSettled, reconcile_work-eq-nil, reconcile_global-eq-nil,
}
use loop_engineering.Scheduler.{
  ScheduleState, select_work, selection_key, is_candidate, is_duplicate,
}
use loop_engineering.Scheduler.Choice.{IsChoice, select_work-IsChoice, select_work-eq-none}
use loop_engineering.MissionSupervisor.{decide_primary, selectable_epoch}
use loop_engineering.MissionSupervisor.Safety.{
  MayContinue, continue_safe, intervention_iff, mission_complete_iff,
}
use loop_engineering.WriteGate.{Mapping, agrees, validate_preconditions, validate}
use loop_engineering.WriteGate.Permission.{
  IsPermitted, IsReadBack, validate_preconditions-IsPermitted, validate-allowed,
}
use loop_engineering.CiGate.{CiObservation}
use loop_engineering.ReviewGate.{ReviewEvidence}

abbrev pub digest : ScheduleState → String
digest state = state.project_status <> "@" <> state.transition

abbrev pub config : LoopEngineConfig
config = record {
  repository = "owner/name";
  project_number = 4;
  trunk_branch = "main";
  authority_refs = "README.md" ∷ [];
  self_improvement = record { enabled = true; project_number = some 5 };
}

abbrev source : String → SourceIdentity
source id = record { source_kind = "issue"; stable_id = id; source_revision = "r1" }

abbrev work : WorkSnapshot
work = record {
  identity = source "work";
  issue_number = 12;
  issue_open = true;
  project_status = "In progress";
  priority = some "P1";
  dependencies_satisfied = true;
  canonical_design_resolved = true;
  actionable = true;
  wait_only = false;
  wait_reason = none;
  checkpoint_matches_live = true;
  dependency_completion_identities = [];
  checkpoint_identity = none;
}

abbrev lineage : LineageSnapshot
lineage = record {
  identity = source "lineage";
  work_issue = 12;
  classification = LineageClassification.canonical;
  branch_ref = some "work/12";
  base_ref = some "main";
  base_sha = some "base";
  head_sha = some "head";
  expected_base_sha = some "base";
  checkpoint_head_sha = some "head";
  ci_head_sha = some "head";
  review_head_sha = none;
  explainable_advance = true;
}

abbrev design : CanonicalDesignSnapshot
design = record {
  identity = source "design";
  path = "docs/design.md";
  expected_blob_sha = "blob";
  live_blob_sha = "blob";
  authority_owner = 4;
}

abbrev mission : MissionSnapshot
mission = record {
  identity = source "mission";
  current_work_id = none;
  checkpoint_is_stale = false;
  root_completion_evidence_complete = true;
  checkpoint_identity = none;
}

abbrev pub epoch : ObservationEpoch
epoch = record {
  observation_id = "o1";
  repository = "owner/name";
  canonical_trunk_ref = "main";
  canonical_trunk_sha = "base";
  project_number = 4;
  project_available = true;
  authorities_available = true;
  mission = mission;
  works = work ∷ [];
  lineages = lineage ∷ [];
  canonical_designs = design ∷ [];
  checkpoint_schedule_keys = [];
  health_events = [];
  open_improvement_issues = [];
  checkpoint_improvement_keys = [];
}

abbrev over : ObservationEpoch
over = record epoch { works = record work { issue_open = false } ∷ [] }

clean_test : reconcile_work epoch 12 ≡ []
unfolding reconcile_work string_eq option_eq nat_eq any keep first count from_keys
clean_test = refl

settled_test : reconcile_global epoch config ≡ []
unfolding reconcile_global string_eq option_eq nat_eq any from_keys
settled_test = refl

select_test : select_work epoch ≡ some work
unfolding select_work string_eq option_eq nat_eq all keep first least min_from selection_key
    dependency_ready
select_test = refl

continue_test : (decide_primary digest config epoch).disposition ≡ RunDisposition.continue
unfolding decide_primary selectable_epoch reconcile_global reconcile_work select_work string_eq
    option_eq nat_eq all any keep first count from_keys least min_from selection_key
    dependency_ready is_duplicate
continue_test = refl

complete_test : (decide_primary digest config over).disposition ≡ RunDisposition.mission_complete
unfolding decide_primary selectable_epoch reconcile_global reconcile_work select_work string_eq
    option_eq nat_eq all any keep first count from_keys least min_from selection_key
    dependency_ready
complete_test = refl

reconcile_work-eq-nil_example : IsClean epoch 12
reconcile_work-eq-nil_example = (reconcile_work-eq-nil epoch 12).0 clean_test

reconcile_global-eq-nil_example : IsSettled epoch config
reconcile_global-eq-nil_example = (reconcile_global-eq-nil epoch config).0 settled_test

select_work-IsChoice_example : IsChoice epoch work
select_work-IsChoice_example = select_work-IsChoice epoch select_test

select_work-eq-none_example :
    (select_work over ≡ none) ↔ All (λ w. is_candidate w ≡ false) over.works
select_work-eq-none_example = select_work-eq-none over

continue_safe_example : MayContinue digest config epoch (decide_primary digest config epoch)
continue_safe_example = continue_safe digest config epoch continue_test

intervention_iff_example :
    ((decide_primary digest config epoch).disposition ≡ RunDisposition.intervention_required)
    ↔ ¬ IsSettled epoch config
intervention_iff_example = intervention_iff digest config epoch

mission_complete_iff_example :
    IsSettled over config
    × All (λ w. is_candidate w ≡ false) (selectable_epoch over).works
    × (over.mission.root_completion_evidence_complete ≡ true)
mission_complete_iff_example = (mission_complete_iff digest config over).0 complete_test

abbrev intent : WriteIntent
intent = record {
  intent_id = "i1";
  target_kind = "branch";
  target_identity = "work/12";
  mutation_kind = "push";
  expected_preconditions = ("head", "abc") ∷ [];
  expected_effect = ("head", "def") ∷ [];
  source_observation_id = "o1";
}

abbrev before : Mapping
before = ("head", "abc") ∷ []

abbrev after : Mapping
after = ("head", "def") ∷ []

permitted_test : (validate_preconditions intent before config).allowed ≡ true
unfolding validate_preconditions agrees all lookup string_eq option_eq
permitted_test = refl

allowed_test : (validate intent before (some after) config).allowed ≡ true
unfolding validate validate_preconditions agrees all lookup string_eq option_eq
allowed_test = refl

validate_preconditions-IsPermitted_example : IsPermitted intent before config
validate_preconditions-IsPermitted_example =
    (validate_preconditions-IsPermitted intent before config).0 permitted_test

validate-allowed_example : IsPermitted intent before config × IsReadBack intent (some after)
validate-allowed_example = (validate-allowed intent before (some after) config).0 allowed_test

abbrev ci : CiObservation
ci = record { head_sha = "abc"; conclusion = some "success" }

abbrev evidence : ReviewEvidence
evidence = record { reviewed_head_sha = "abc"; verdict = "PASS"; blocking_count = 0 }
