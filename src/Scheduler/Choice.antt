-- ===== src/Scheduler/Choice.antt =====
-- Which work `select_work` returns.
use mathlib.Core.Path.{subst}
use loop_engineering.Prelude.{true, false, ◌≡◌, refl, Option, none, some}
use loop_engineering.Prelude.{[], arith, inl, inr, ◌⊎◌, ◌↔◌}
use loop_engineering.Prelude.{
  option_eq, nat_eq, keep, keep-In, first-In, keep-nil, nil-keep, All-In, In, All, Bool-cases,
}
use loop_engineering.Models.{WorkSnapshot, ObservationEpoch}
use loop_engineering.Selection.{least, IsLeast, least-IsLeast, least-eq-none}
use loop_engineering.Scheduler.{
  selection_key, is_candidate, best_candidate, current_work, current_or_best, select_work,
}

-- The selected work is the mission's current work, or no candidate comes before it.
pub record IsChoice (epoch : ObservationEpoch) (w : WorkSnapshot) : Type 0 where
  pub observed : In w epoch.works
  pub candidate : is_candidate w ≡ true
  pub preferred :
      (some w.issue_number ≡ epoch.mission.current_work_id)
      ⊎ IsLeast selection_key w (keep is_candidate epoch.works)

best-IsChoice :
    (epoch : ObservationEpoch) {w : WorkSnapshot} → best_candidate epoch ≡ some w → IsChoice epoch w
best-IsChoice epoch h =
    let (m, best) = least-IsLeast selection_key _ h in
    let (seen, passes) = keep-In is_candidate epoch.works m in
    record { observed = seen; candidate = passes; preferred = inr best }

-- A selected work is observed and a candidate, and it is the mission's current work or the first of
-- the candidates by priority, progress and issue number.
pub select_work-IsChoice :
    (epoch : ObservationEpoch) {w : WorkSnapshot} → select_work epoch ≡ some w → IsChoice epoch w
unfolding select_work
select_work-IsChoice epoch {w} h = by_current (current_work epoch) refl h
  where
    by_current :
        (o : Option WorkSnapshot)
        → current_work epoch ≡ o
        → current_or_best epoch o ≡ some w
        → IsChoice epoch w
    by_current none e h = best-IsChoice epoch h
    by_current (some c) e h = elim (Bool-cases (is_candidate c)) [
      | inl ready ↦
          let same : c ≡ w = ground arith in
          let (m, t) = first-In _ epoch.works e in
          subst (IsChoice epoch) same
            (record { observed = m; candidate = ready; preferred = inl (ground arith) })
      | inr idle ↦ best-IsChoice epoch (ground arith)
    ]

-- `select_work` returns nothing exactly when no observed work is a candidate.
pub select_work-eq-none :
    (epoch : ObservationEpoch)
    → (select_work epoch ≡ none) ↔ All (λ w. is_candidate w ≡ false) epoch.works
unfolding select_work least
select_work-eq-none epoch = (
  λ h. keep-nil is_candidate epoch.works (no_best (current_work epoch) h),
  λ idle. none_chosen idle (current_work epoch) refl,
)
  where
    no_best :
        (o : Option WorkSnapshot)
        → current_or_best epoch o ≡ none
        → keep is_candidate epoch.works ≡ []
    no_best none h = least-eq-none selection_key _ h
    no_best (some c) h = least-eq-none selection_key _ (ground arith)

    none_chosen :
        All (λ w. is_candidate w ≡ false) epoch.works
        → (o : Option WorkSnapshot) → current_work epoch ≡ o
        → current_or_best epoch o ≡ none
    none_chosen idle none e = rw (nil-keep is_candidate epoch.works idle) refl
    none_chosen idle (some c) e =
        let off =
          All-In (λ w. is_candidate w ≡ false) epoch.works idle (first-In _ epoch.works e).0 in
        rw off (rw (nil-keep is_candidate epoch.works idle) refl)
