-- ===== src/Reconciliation.antt =====
-- src/loop_engineering/reconciliation.py: the conflicts that an observed epoch shows, for the whole
-- mission and for one work.
pub mod Clean
use loop_engineering.Prelude.{
  ℕ, String, Bool, true, false, ◌&&◌, not, Option, none, some, List, [], ◌∷◌, ◌++◌,
}
use loop_engineering.Prelude.{
  ◌==◌, ◌!=◌, string_eq, option_eq, nat_eq, if◌then◌else◌, any, keep, first, count, when, from_keys,
  ltb, truthy, is_nil,
}
use loop_engineering.Models.{
  ConflictKind, authority_unavailable, project_authority_unavailable, canonical_design_unresolved,
  canonical_design_mismatch, multiple_active_lineages, unknown_lineage, base_sha_mismatch,
  head_sha_mismatch, unexplained_sha_change, checkpoint_live_mismatch, mission_checkpoint_stale,
  review_head_mismatch, ci_head_mismatch, forbidden_project_identity, conflict_eq, is_canonical,
  is_unknown, WorkSnapshot, LineageSnapshot, CanonicalDesignSnapshot, ObservationEpoch,
  LoopEngineConfig,
}

design_conflicts : List CanonicalDesignSnapshot → List ConflictKind
design_conflicts designs =
    if is_nil designs
    then canonical_design_unresolved ∷ []
    else when (any (λ d. d.expected_blob_sha != d.live_blob_sha) designs) canonical_design_mismatch

project_conflicts : ObservationEpoch → LoopEngineConfig → List ConflictKind
project_conflicts epoch config =
    if epoch.project_number != config.project_number
    then forbidden_project_identity ∷ []
    else when (not epoch.project_available) project_authority_unavailable

-- The list that the checks append to.
global_conflicts : ObservationEpoch → LoopEngineConfig → List ConflictKind
unfolding design_conflicts project_conflicts
global_conflicts epoch config =
    when (not epoch.authorities_available) authority_unavailable
    ++ (project_conflicts epoch config
        ++ (design_conflicts epoch.canonical_designs
            ++ when epoch.mission.checkpoint_is_stale mission_checkpoint_stale))

unfoldable pub reconcile_global : ObservationEpoch → LoopEngineConfig → List ConflictKind
unfolding global_conflicts
reconcile_global epoch config = from_keys (global_conflicts epoch config)

-- The body of the loop over the lineages of one work.
lineage_conflicts : LineageSnapshot → List ConflictKind
lineage_conflicts l =
    when (truthy l.expected_base_sha && l.base_sha != l.expected_base_sha) base_sha_mismatch
    ++ (when (truthy l.checkpoint_head_sha && l.head_sha != l.checkpoint_head_sha) head_sha_mismatch
        ++ (when (truthy l.head_sha && not l.explainable_advance) unexplained_sha_change
            ++ (when (truthy l.ci_head_sha && l.ci_head_sha != l.head_sha) ci_head_mismatch
                ++ when (truthy l.review_head_sha && l.review_head_sha != l.head_sha)
                    review_head_mismatch)))

lineages_conflicts : List LineageSnapshot → List ConflictKind
unfolding lineage_conflicts
lineages_conflicts [] = []
lineages_conflicts (l ∷ ls) = lineage_conflicts l ++ lineages_conflicts ls

-- `work is None or not work.checkpoint_matches_live`
checkpoint_differs : Option WorkSnapshot → Bool
checkpoint_differs none = true
checkpoint_differs (some w) = not w.checkpoint_matches_live

abbrev pub work_of : ObservationEpoch → ℕ → Option WorkSnapshot
work_of epoch issue_number = first (λ w. w.issue_number == issue_number) epoch.works

abbrev pub matching : ObservationEpoch → ℕ → List LineageSnapshot
matching epoch issue_number = keep (λ l. l.work_issue == issue_number) epoch.lineages

work_conflicts : Option WorkSnapshot → List LineageSnapshot → List ConflictKind
unfolding lineages_conflicts checkpoint_differs
work_conflicts work lineages =
    when (checkpoint_differs work) checkpoint_live_mismatch
    ++ (when (ltb 1 (count (λ l. is_canonical l.classification) lineages)) multiple_active_lineages
        ++ (when (any (λ l. is_unknown l.classification) lineages) unknown_lineage
            ++ lineages_conflicts lineages))

unfoldable pub reconcile_work : ObservationEpoch → ℕ → List ConflictKind
unfolding work_conflicts
reconcile_work epoch issue_number =
    from_keys (work_conflicts (work_of epoch issue_number) (matching epoch issue_number))

works_conflicts : ObservationEpoch → List WorkSnapshot → List ConflictKind
works_conflicts epoch [] = []
works_conflicts epoch (w ∷ ws) = reconcile_work epoch w.issue_number ++ works_conflicts epoch ws

unfoldable pub reconcile : ObservationEpoch → LoopEngineConfig → List ConflictKind
unfolding works_conflicts
reconcile epoch config =
    from_keys (reconcile_global epoch config ++ works_conflicts epoch epoch.works)
