-- ===== src/V2Supervisor/Decisions.antt =====
-- What `V2Supervisor.decide` returns.
use mathlib.Core.Option
use mathlib.Core.Path.{subst}
use loop_engineering.Prelude.{
  String, true, false, ◌≡◌, ◌≢◌, refl, ◌↔◌, ◌⊎◌, inl, inr, Option, none, some, List, [], ◌∷◌, arith,
  ◌∙◌, ap,
}
use loop_engineering.Prelude.{
  ◌==◌, string_eq, option_eq, is_some, is_empty, contains, keep, first, In, All, all-All, All-all,
  any-All, All-any, keep-In, first-In, nil-keep, All-In, Bool-cases, Option-cases,
}
use loop_engineering.Selection.{least, IsLeast, least-IsLeast}
use loop_engineering.V2Supervisor.{
  V2Transition, continue, yield_external, complete_goal, V2WorkObservation, V2SupervisorDecision,
  V2ScheduleState, V2Request, terminal, derive_transition, selection_key, actionable, is_candidate,
  best_candidate, current_or_best, select, has_duplicate_identity, schedule_key, decide_idle,
  decide_transition, decide_selected, decide,
}

some_of_is_some {ℓ} : {A : Type ℓ} (o : Option A) → is_some o ≡ true → (a : A) × (o ≡ some a)
some_of_is_some none h = cc
some_of_is_some (some a) h = (a, refl)

-- The selected work has a transition, and is the current one or the first candidate.
pub record IsSelected (works : List V2WorkObservation) (current : Option String)
    (w : V2WorkObservation) : Type 0 where
  pub observed : In w works
  pub acts : actionable w ≡ true
  pub preferred :
      (some w.work_identity ≡ current) ⊎ IsLeast selection_key w (keep is_candidate works)

best-IsSelected :
    (works : List V2WorkObservation) (current : Option String) {w : V2WorkObservation}
    → best_candidate works ≡ some w
    → IsSelected works current w
best-IsSelected works current h =
    let (m, best) = least-IsLeast selection_key _ h in
    let (seen, passes) = keep-In is_candidate works m in
    record { observed = seen; acts = ground arith; preferred = inr best }

pub select-IsSelected :
    (works : List V2WorkObservation) (current : Option String) {w : V2WorkObservation}
    → select works current ≡ some w
    → IsSelected works current w
unfolding select
select-IsSelected works current {w} h = by_current (first _ works) refl h
  where
    by_current :
        (o : Option V2WorkObservation)
        → first (λ work. some work.work_identity == current) works ≡ o
        → current_or_best works o ≡ some w
        → IsSelected works current w
    by_current none e h = best-IsSelected works current h
    by_current (some c) e h = elim (Bool-cases (actionable c)) [
      | inl acts ↦
          let same : c ≡ w = ground arith in
          let (m, t) = first-In _ works e in
          subst (IsSelected works current) same
            (record { observed = m; acts = acts; preferred = inl (ground arith) })
      | inr idle ↦ best-IsSelected works current (ground arith)
    ]

module _ (digest : V2ScheduleState → String) where
  selected_total :
      (r : V2Request) (o : Option V2WorkObservation)
      → ((w : V2WorkObservation) → o ≡ some w → actionable w ≡ true)
      → (d : V2SupervisorDecision) × (decide_selected digest r o ≡ some d)
  unfolding decide_selected
  selected_total r none h = (decide_idle r, refl)
  selected_total r (some w) h =
      let (t, e) = some_of_is_some (derive_transition w) (h w refl) in
      (decide_transition digest r w t, ap (Option.map (decide_transition digest r w)) e)

  -- `decide` returns a decision for every request: its assertion never fails.
  pub decide_total : (r : V2Request) → (d : V2SupervisorDecision) × (decide digest r ≡ some d)
  unfolding decide
  decide_total r = elim (Option-cases (decide digest r)) [
    | inl failed ↦ absurd (
        ground (
          arith,
          selected_total r (select r.works r.current_work_identity)
              (λ w e. (select-IsSelected r.works r.current_work_identity e).acts),
        ))
    | inr found ↦ found
  ]

  -- The work, its derived transition and its fresh key, of a decision to continue.
  pub record MayDispatch (r : V2Request) (d : V2SupervisorDecision) : Type 0 where
    pub work : V2WorkObservation
    pub transition : V2Transition
    pub selected : IsSelected r.works r.current_work_identity work
    pub derived : derive_transition work ≡ some transition
    pub fresh :
        contains r.dispatched_schedule_keys (schedule_key digest r.goal_revision work transition)
        ≡ false
    pub named : d.work_identity ≡ some work.work_identity
    pub moved : d.transition ≡ some transition
    pub keyed : d.schedule_key ≡ some (schedule_key digest r.goal_revision work transition)

  module _ (r : V2Request) (d : V2SupervisorDecision) (decided : decide digest r ≡ some d) where
    -- A decision to continue or to suppress a duplicate comes from a selected work.
    selected_decision :
        (d.disposition ≡ continue) ⊎ (d.transition ≢ none)
        → (w : V2WorkObservation) × (t : V2Transition) × (select r.works r.current_work_identity
            ≡ some w)
          × (derive_transition w ≡ some t)
          × (d ≡ decide_transition digest r w t)
    unfolding decide decide_selected decide_idle
    selected_decision h = elim (Option-cases (select r.works r.current_work_identity)) [
      | inl nothing ↦ absurd (ground arith)
      | inr (w, chosen) ↦ elim (Option-cases (derive_transition w)) [
        | inl idle ↦ absurd (ground arith)
        | inr (t, e) ↦ (w, t, chosen, e, ground arith)
      ]
    ]

    -- A decision to continue names an observed work with a derived transition, the current work or the
    -- first candidate by priority, progress and issue number, and a schedule key that was not
    -- dispatched before.
    pub dispatch_safe : d.disposition ≡ continue → MayDispatch r d
    unfolding decide_transition
    dispatch_safe h =
        let (w, t, chosen, e, same) = selected_decision (inl h) in
        record {
          work = w;
          transition = t;
          selected = select-IsSelected r.works r.current_work_identity chosen;
          derived = e;
          fresh = ground arith;
          named = ap (λ (x : V2SupervisorDecision). x.work_identity) same ∙ ground arith;
          moved = ap (λ (x : V2SupervisorDecision). x.transition) same ∙ ground arith;
          keyed = ap (λ (x : V2SupervisorDecision). x.schedule_key) same ∙ ground arith;
        }

    -- Once the key of a decision to continue is recorded as dispatched, the same request is answered by
    -- a suppressed duplicate of the same work and key.
    pub dispatch_once :
        (key : String)
        → d.disposition ≡ continue
        → d.schedule_key ≡ some key
        → decide digest (record r { dispatched_schedule_keys = key ∷ r.dispatched_schedule_keys })
          ≡ some
              (record d { disposition = yield_external; detail = "DUPLICATE_SCHEDULE_SUPPRESSED" })
    unfolding decide decide_selected decide_transition
    dispatch_once key h k = let (w, t, chosen, e, same) = selected_decision (inl h) in ground arith

  -- What `decide` asks of a goal before it is reported complete.
  pub record IsComplete (r : V2Request) : Type 0 where
    pub revision : is_empty r.goal_revision ≡ false
    pub distinct : has_duplicate_identity r.works ≡ false
    pub some_works : r.works ≢ []
    pub terminal_works : All (λ work. terminal work ≡ true) r.works
    pub calm : All (λ (work : V2WorkObservation). work.unresolved_conflict ≡ false) r.works
    pub confirmed : r.pending_effect ≡ false
    pub accepted : r.goal_acceptance_complete ≡ true

  terminal_idle : (w : V2WorkObservation) → terminal w ≡ true → derive_transition w ≡ none
  unfolding derive_transition
  terminal_idle w h = ground arith

  idle_of_terminal :
      (works : List V2WorkObservation)
      → All (λ work. terminal work ≡ true) works
      → All (λ work. is_candidate work ≡ false) works
  idle_of_terminal [] h = tt
  idle_of_terminal (w ∷ works) h = (ground (arith, terminal_idle w h.0), idle_of_terminal works h.1)

  none_selected :
      (works : List V2WorkObservation) (current : Option String)
      → All (λ work. terminal work ≡ true) works
      → select works current ≡ none
  unfolding select least
  none_selected works current done = by_current (first _ works) refl
    where
      by_current :
          (o : Option V2WorkObservation)
          → first (λ work. some work.work_identity == current) works ≡ o
          → current_or_best works o ≡ none
      by_current none e = rw (nil-keep is_candidate works (idle_of_terminal works done)) refl
      by_current (some c) e =
          let over = All-In (λ work. terminal work ≡ true) works done (first-In _ works e).0 in
          rw (terminal_idle c over)
            (rw (nil-keep is_candidate works (idle_of_terminal works done)) refl)

  -- The goal is reported complete exactly when its revision is named, no identity stands twice, there are
  -- works, all of them terminal and without conflict, no effect is pending and the goal's acceptance is
  -- complete. Nothing else is asked for: neither that no lineage of a work is active, nor that no human
  -- verification of a work is pending.
  pub complete_goal_iff :
      (r : V2Request) (d : V2SupervisorDecision)
      → decide digest r ≡ some d
      → (d.disposition ≡ complete_goal) ↔ IsComplete r
  unfolding decide decide_selected decide_idle decide_transition
  complete_goal_iff r d decided = (
    λ h. record {
      revision = ground arith;
      distinct = ground arith;
      some_works = λ e. ground arith;
      terminal_works = all-All terminal r.works (ground arith);
      calm = any-All (λ work. work.unresolved_conflict) r.works (ground arith);
      confirmed = ground arith;
      accepted = ground arith;
    },
    λ c. ground (
      arith,
      none_selected r.works r.current_work_identity c.terminal_works,
      All-all terminal r.works c.terminal_works,
      All-any (λ work. work.unresolved_conflict) r.works c.calm,
    ),
  )
