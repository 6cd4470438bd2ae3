-- ===== src/V2Supervisor/Transitions.antt =====
-- When `derive_transition` allows the transitions that change the trunk or close a work.
use loop_engineering.Prelude.{
  String, true, false, ◌≡◌, ◌≢◌, refl, ◌↔◌, ◌⊎◌, none, some, List, [], ◌∷◌, arith, ◌∙◌,
}
use loop_engineering.Prelude.{◌==◌, string_eq, option_eq, all, truthy, All}
use loop_engineering.V2Supervisor.{
  EvidenceState, pass, fail, request_changes, not_required, V2Transition, design, implement, repair,
  integrate, complete_work, V2WorkObservation, dependency_ready, terminal, by_evidence,
  derive_transition,
}

-- The work waits for nothing: no conflict, no open dependency.
pub record IsReady (work : V2WorkObservation) : Type 0 where
  pub settled : work.unresolved_conflict ≡ false
  pub dependencies : All (λ state. state ≡ "CLOSED") work.dependency_states

-- The work is under way: it has its criteria, its design and a head, and is neither merged nor closed.
pub record IsUnderWay (work : V2WorkObservation) : Type 0 where
  pub ready : IsReady work
  pub unmerged : work.merged ≡ false
  pub incomplete : work.lifecycle ≢ "COMPLETED"
  pub not_closed : work.issue_state ≢ "CLOSED"
  pub criteria : truthy work.acceptance_digest ≡ true
  pub designs : work.canonical_design_identities ≢ []
  pub designed : work.selected_transition ≢ some "DESIGN"
  pub has_head : work.exact_head_sha ≢ none

-- Every kind of evidence that the work needs has passed.
pub record IsProven (work : V2WorkObservation) : Type 0 where
  pub verified : work.verification_state ≡ pass
  pub built : work.ci_state ≡ pass
  pub reviewed : work.review_state ≡ pass
  pub checked : work.human_verification_required ≡ true → work.human_verification_state ≡ pass

dependencies_closed :
    (states : List String)
    → (all (λ state. state == "CLOSED") states ≡ true) ↔ All (λ state. state ≡ "CLOSED") states
unfolding all
dependencies_closed [] = (λ h. tt, λ h. refl)
dependencies_closed (state ∷ states) = (
  λ h. (ground arith, (dependencies_closed states).0 (ground arith)),
  λ h. ground (arith, (dependencies_closed states).1 h.1),
)

by_evidence-integrate :
    (work : V2WorkObservation) → (by_evidence work ≡ some integrate) ↔ IsProven work
unfolding by_evidence
by_evidence-integrate work = (
  λ h. record {
    verified = ground arith;
    built = ground arith;
    reviewed = ground arith;
    checked = λ q. ground arith;
  },
  λ p. ground arith,
)

IsReady-iff :
    (work : V2WorkObservation)
    → ((work.unresolved_conflict ≡ false) × (dependency_ready work ≡ true)) ↔ IsReady work
unfolding dependency_ready
IsReady-iff work = (
  λ h. record { settled = h.0; dependencies = (dependencies_closed _).0 h.1 },
  λ r. (r.settled, (dependencies_closed _).1 r.dependencies),
)

-- From a derived transition that is neither COMPLETE_WORK, DESIGN nor IMPLEMENT, the work is under way
-- and the transition was derived from its evidence.
derived_by_evidence :
    (work : V2WorkObservation) (t : V2Transition)
    → derive_transition work ≡ some t
    → t ≢ complete_work
    → t ≢ design
    → t ≢ implement
    → IsUnderWay work × (by_evidence work ≡ some t)
unfolding derive_transition
derived_by_evidence work t h c d i = (
  record {
    ready = (IsReady-iff work).0 (ground arith, ground arith);
    unmerged = ground arith;
    incomplete = λ e. ground arith;
    not_closed = λ e. ground arith;
    criteria = ground arith;
    designs = λ e. ground arith;
    designed = λ e. ground arith;
    has_head = λ e. ground arith;
  },
  ground arith,
)

under_way_evidence :
    (work : V2WorkObservation) → IsUnderWay work → derive_transition work ≡ by_evidence work
unfolding derive_transition
under_way_evidence work u = let (calm, closed) = (IsReady-iff work).1 u.ready in ground arith

-- INTEGRATE is derived exactly for a work under way whose verification, CI and review have passed, and
-- its human verification too where it is required.
pub integrate_iff :
    (work : V2WorkObservation)
    → (derive_transition work ≡ some integrate) ↔ (IsUnderWay work × IsProven work)
integrate_iff work = (
  λ h.
      let (u, e) = derived_by_evidence work integrate h (λ q. cc) (λ q. cc) (λ q. cc) in
      (u, (by_evidence-integrate work).0 e),
  λ p. under_way_evidence work p.0 ∙ (by_evidence-integrate work).1 p.1,
)

-- COMPLETE_WORK is derived exactly for a ready work that is merged and not completed, closed and Done
-- already; a terminal work, which is all three, never derives it.
pub complete_work_iff :
    (work : V2WorkObservation)
    → (derive_transition work ≡ some complete_work)
      ↔ (IsReady work × (work.merged ≡ true) × (terminal work ≡ false))
unfolding derive_transition
complete_work_iff work = (
  λ h. ((IsReady-iff work).0 (ground arith, ground arith), ground arith, ground arith),
  λ p. let (calm, closed) = (IsReady-iff work).1 p.0 in ground arith,
)

-- Evidence that has come back and is not a pass.
abbrev pub IsNegative : EvidenceState → Type 0
IsNegative fail = Unit
IsNegative request_changes = Unit
IsNegative _ = ⊥

-- Evidence that never applies to a stage counts as negative there.
abbrev pub IsRejected : EvidenceState → Type 0
IsRejected not_required = Unit
IsRejected state = IsNegative state

-- The first evidence, in the order verification, CI, review, human, that is not a pass is negative.
abbrev pub IsBroken : V2WorkObservation → Type 0
IsBroken work =
    IsRejected work.verification_state
    ⊎ ((work.verification_state ≡ pass)
        × (IsRejected work.ci_state
            ⊎ ((work.ci_state ≡ pass)
                × (IsRejected work.review_state
                    ⊎ ((work.review_state ≡ pass)
                        × (work.human_verification_required ≡ true)
                        × IsNegative work.human_verification_state)))))

by_evidence-repair : (work : V2WorkObservation) → (by_evidence work ≡ some repair) ↔ IsBroken work
unfolding by_evidence
by_evidence-repair work = (λ h. ground arith, λ b. ground arith)

-- REPAIR is derived exactly for a work under way whose first evidence without a pass is negative.
pub repair_iff :
    (work : V2WorkObservation)
    → (derive_transition work ≡ some repair) ↔ (IsUnderWay work × IsBroken work)
repair_iff work = (
  λ h.
      let (u, e) = derived_by_evidence work repair h (λ q. cc) (λ q. cc) (λ q. cc) in
      (u, (by_evidence-repair work).0 e),
  λ p. under_way_evidence work p.0 ∙ (by_evidence-repair work).1 p.1,
)
