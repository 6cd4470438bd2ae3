-- ===== src/Reconciliation/Clean.antt =====
-- When `reconcile_global` and `reconcile_work` report nothing.
use loop_engineering.Prelude.{
  ℕ, true, false, ◌≤◌, ◌≡◌, ◌≢◌, refl, ◌↔◌, inl, inr, Option, some, List, [], ◌∷◌, ◌++◌, arith,
}
use loop_engineering.Prelude.{
  ◌!=◌, string_eq, option_eq, nat_eq, any, count, Option-cases, All, from_keys, truthy, Eq,
}
use loop_engineering.Models.{
  unknown, is_canonical, is_unknown, WorkSnapshot, LineageSnapshot, CanonicalDesignSnapshot,
  ObservationEpoch, LoopEngineConfig, conflict_eq,
}
use loop_engineering.Reconciliation.{
  work_of, matching, lineage_conflicts, lineages_conflicts, checkpoint_differs, work_conflicts,
  reconcile_work, reconcile_global, global_conflicts,
}

-- Every SHA that an observation pins agrees with the one that was read.
pub record IsConsistent (l : LineageSnapshot) : Type 0 where
  pub known : l.classification ≢ unknown
  pub base : truthy l.expected_base_sha ≡ true → l.base_sha ≡ l.expected_base_sha
  pub head : truthy l.checkpoint_head_sha ≡ true → l.head_sha ≡ l.checkpoint_head_sha
  pub explained : truthy l.head_sha ≡ true → l.explainable_advance ≡ true
  pub ci_head : truthy l.ci_head_sha ≡ true → l.ci_head_sha ≡ l.head_sha
  pub review_head : truthy l.review_head_sha ≡ true → l.review_head_sha ≡ l.head_sha

abbrev pub canonical_count : List LineageSnapshot → ℕ
canonical_count = count (λ l. is_canonical l.classification)

-- The work is observed with its checkpoint in place, and its lineages agree on one history.
pub record IsClean (epoch : ObservationEpoch) (issue_number : ℕ) : Type 0 where
  pub observed :
      (w : WorkSnapshot) × (work_of epoch issue_number ≡ some w)
      × (w.checkpoint_matches_live ≡ true)
  pub one_canonical : canonical_count (matching epoch issue_number) ≤ 1
  pub consistent : All IsConsistent (matching epoch issue_number)

pub from_keys-eq-nil {ℓ} : {A : Type ℓ} ⦃e : Eq A⦄ (xs : List A) → (from_keys xs ≡ []) ↔ (xs ≡ [])
unfolding from_keys
from_keys-eq-nil [] = (λ h. refl, λ h. refl)
from_keys-eq-nil (x ∷ xs) = (λ h. cc, λ h. cc)

pub append-eq-nil {ℓ} : {A : Type ℓ} (xs ys : List A) → ((xs ++ ys) ≡ []) ↔ ((xs ≡ []) × (ys ≡ []))
append-eq-nil [] ys = (λ h. (refl, h), λ h. h.1)
append-eq-nil (x ∷ xs) ys = (λ h. cc, λ h. cc h.0)

no_lineage_conflict : (l : LineageSnapshot) → IsConsistent l → lineage_conflicts l ≡ []
unfolding lineage_conflicts
no_lineage_conflict l c = ground arith

lineage_conflicts-IsConsistent :
    (l : LineageSnapshot)
    → is_unknown l.classification ≡ false
    → lineage_conflicts l ≡ []
    → IsConsistent l
unfolding lineage_conflicts
lineage_conflicts-IsConsistent l k h = record {
  known = ground arith;
  base = λ t. ground arith;
  head = λ t. ground arith;
  explained = λ t. ground arith;
  ci_head = λ t. ground arith;
  review_head = λ t. ground arith;
}

lineages_clean :
    (ls : List LineageSnapshot)
    → any (λ l. is_unknown l.classification) ls ≡ false
    → lineages_conflicts ls ≡ []
    → All IsConsistent ls
unfolding lineages_conflicts any
lineages_clean [] u h = tt
lineages_clean (l ∷ ls) u h =
    let split = (append-eq-nil (lineage_conflicts l) (lineages_conflicts ls)).0 h in
    (
      lineage_conflicts-IsConsistent l (ground arith) split.0,
      lineages_clean ls (ground arith) split.1,
    )

no_lineages_conflict :
    (ls : List LineageSnapshot)
    → All IsConsistent ls
    → (any (λ l. is_unknown l.classification) ls ≡ false) × (lineages_conflicts ls ≡ [])
unfolding lineages_conflicts any
no_lineages_conflict [] c = (refl, refl)
no_lineages_conflict (l ∷ ls) c =
    let (known, quiet) = no_lineages_conflict ls c.1 in
    (ground (arith, c.0.known), rw (no_lineage_conflict l c.0) quiet)

module _ (work : Option WorkSnapshot) (ls : List LineageSnapshot) where
  abbrev Observed : Type 0
  Observed = (w : WorkSnapshot) × (work ≡ some w) × (w.checkpoint_matches_live ≡ true)

  checkpoint_in_place : checkpoint_differs work ≡ false → Observed
  unfolding checkpoint_differs
  checkpoint_in_place h = elim (Option-cases work) [
    | inl missing ↦ ground arith
    | inr (w, found) ↦ (w, found, ground arith)
  ]

  quiet_parts :
      work_conflicts work ls ≡ []
      → (checkpoint_differs work ≡ false)
        × (canonical_count ls ≤ 1)
        × (any (λ l. is_unknown l.classification) ls ≡ false)
        × (lineages_conflicts ls ≡ [])
  unfolding work_conflicts
  quiet_parts h = ground arith

  quiet_work :
      checkpoint_differs work ≡ false
      → canonical_count ls ≤ 1
      → any (λ l. is_unknown l.classification) ls ≡ false
      → lineages_conflicts ls ≡ []
      → work_conflicts work ls ≡ []
  unfolding work_conflicts
  quiet_work c o u q = ground arith

-- `reconcile_work` reports nothing exactly for a work whose checkpoint is in place, that has at most
-- one canonical lineage and no unknown one, and whose lineages agree with every SHA that they pin and, where
-- their head was read, have an advance that is explained.
pub reconcile_work-eq-nil :
    (epoch : ObservationEpoch) (n : ℕ) → (reconcile_work epoch n ≡ []) ↔ IsClean epoch n
unfolding reconcile_work
reconcile_work-eq-nil epoch n =
    (λ h. sound ((from_keys-eq-nil _).0 h), λ c. (from_keys-eq-nil _).1 (complete c))
  where
    sound : work_conflicts (work_of epoch n) (matching epoch n) ≡ [] → IsClean epoch n
    sound h =
        let (here, one, known, quiet) = quiet_parts _ _ h in
        record {
          observed = checkpoint_in_place (work_of epoch n) (matching epoch n) here;
          one_canonical = one;
          consistent = lineages_clean _ known quiet;
        }

    complete : IsClean epoch n → work_conflicts (work_of epoch n) (matching epoch n) ≡ []
    complete c =
        let (known, quiet) = no_lineages_conflict _ c.consistent in
        let (w, found, live) = c.observed in
        quiet_work _ _ (rw found (rw live refl)) c.one_canonical known quiet

-- The whole-mission conditions of `reconcile_global`.
pub record IsSettled (epoch : ObservationEpoch) (config : LoopEngineConfig) : Type 0 where
  pub authorities : epoch.authorities_available ≡ true
  pub project : epoch.project_number ≡ config.project_number
  pub project_readable : epoch.project_available ≡ true
  pub designs : epoch.canonical_designs ≢ []
  pub designs_match :
      All
        (λ (d : CanonicalDesignSnapshot). d.expected_blob_sha ≡ d.live_blob_sha)
        epoch.canonical_designs
  pub checkpoint_fresh : epoch.mission.checkpoint_is_stale ≡ false

designs_agree :
    (ds : List CanonicalDesignSnapshot)
    → (any (λ d. d.expected_blob_sha != d.live_blob_sha) ds ≡ false)
      ↔ All (λ (d : CanonicalDesignSnapshot). d.expected_blob_sha ≡ d.live_blob_sha) ds
unfolding any
designs_agree [] = (λ h. tt, λ h. refl)
designs_agree (d ∷ ds) = (
  λ h. (ground arith, (designs_agree ds).0 (ground arith)),
  λ h. ground (arith, (designs_agree ds).1 h.1),
)

settled :
    (epoch : ObservationEpoch) (config : LoopEngineConfig)
    → global_conflicts epoch config ≡ []
    → IsSettled epoch config
unfolding global_conflicts
settled epoch config h = record {
  authorities = ground arith;
  project = ground arith;
  project_readable = ground arith;
  designs = ground arith;
  designs_match = (designs_agree epoch.canonical_designs).0 (ground arith);
  checkpoint_fresh = ground arith;
}

quiet_epoch :
    (epoch : ObservationEpoch) (config : LoopEngineConfig)
    → IsSettled epoch config
    → global_conflicts epoch config ≡ []
unfolding global_conflicts
quiet_epoch epoch config s =
    ground (arith, (designs_agree epoch.canonical_designs).1 s.designs_match)

-- `reconcile_global` reports nothing exactly when the authorities can be read, the project is the
-- configured one and can be read, there are canonical designs and each is as expected, and the
-- mission checkpoint is fresh.
pub reconcile_global-eq-nil :
    (epoch : ObservationEpoch) (config : LoopEngineConfig)
    → (reconcile_global epoch config ≡ []) ↔ IsSettled epoch config
unfolding reconcile_global
reconcile_global-eq-nil epoch config = (
  λ h. settled epoch config ((from_keys-eq-nil _).0 h),
  λ s. (from_keys-eq-nil _).1 (quiet_epoch epoch config s),
)
