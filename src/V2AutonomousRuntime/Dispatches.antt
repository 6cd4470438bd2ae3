-- ===== src/V2AutonomousRuntime/Dispatches.antt =====
-- What the table of dispatches lets through.
use mathlib.Core.Path.{subst}
use loop_engineering.Prelude.{
  String, true, false, not, ◌≡◌, ◌≢◌, refl, inl, inr, some, List, [], ◌∷◌, arith,
}
use loop_engineering.Prelude.{
  ◌==◌, string_eq, option_eq, contains, keep, first, Bool-cases, In, keep-In,
}
use loop_engineering.V2Supervisor.{
  V2Transition, V2WorkObservation, V2ScheduleState, derive_transition, schedule_key,
}
use loop_engineering.V2AutonomousRuntime.{
  AutonomousDispatch, Dispatches, same_dispatch, dispatch_record, may_retry, upsert_dispatch,
  valid_dispatch, dispatch_literals, found_same, dispatch, is_dispatched, dispatched_schedule_keys,
  key_dispatched, was_dispatched, without_dispatched,
}

record-dispatched :
    (item : AutonomousDispatch) (rows : Dispatches)
    → item.status ≡ "DISPATCHED"
    → found_same (dispatch_record item.schedule_key rows) item ≡ true
    → contains (dispatched_schedule_keys item.runtime_identity rows) item.schedule_key ≡ true
unfolding dispatch_record found_same same_dispatch dispatched_schedule_keys keep first is_dispatched
record-dispatched item [] h e = ground arith
record-dispatched item (row ∷ rows) h e =
    elim (Bool-cases (row.schedule_key == item.schedule_key)) [
      | inl same ↦ ground arith
      | inr later ↦ ground (arith, record-dispatched item rows h)
    ]

-- A dispatch that is accepted as DISPATCHED is from then on among its runtime's dispatched keys.
pub dispatch-recorded :
    (item : AutonomousDispatch) (rows after : Dispatches)
    → item.status ≡ "DISPATCHED"
    → dispatch item rows ≡ some (after, true)
    → contains (dispatched_schedule_keys item.runtime_identity after) item.schedule_key ≡ true
unfolding dispatch
dispatch-recorded item rows after h e =
    let same : upsert_dispatch item rows ≡ after = ground arith in
    record-dispatched item after h (ground arith)

module _ (digest : V2ScheduleState → String) where
  without_dispatched-keep :
      (goal_revision : String) (works : List V2WorkObservation) (dispatched : List String)
      → (without_dispatched digest goal_revision works dispatched).0
        ≡ keep (λ work. not (was_dispatched digest goal_revision dispatched work)) works
  unfolding without_dispatched keep
  without_dispatched-keep rev [] dispatched = refl
  without_dispatched-keep rev (w ∷ works) dispatched =
      ground (arith, without_dispatched-keep rev works dispatched)

  without_dispatched-fresh :
      (goal_revision : String) (works : List V2WorkObservation) (dispatched : List String)
      (work : V2WorkObservation)
      → In work (without_dispatched digest goal_revision works dispatched).0
      → was_dispatched digest goal_revision dispatched work ≡ false
  without_dispatched-fresh rev works dispatched work m =
      let kept = subst (λ l. In work l) (without_dispatched-keep rev works dispatched) m in
      let (seen, fresh) = keep-In (λ w. not (was_dispatched digest rev dispatched w)) works kept in
      ground arith

  -- Once a work's derived transition is accepted as DISPATCHED, no round of that runtime and goal
  -- revision that reads the table then offers the work in that state to the supervisor.
  pub dispatched_withheld :
      (goal_revision : String) (works : List V2WorkObservation) (work : V2WorkObservation)
      (transition : V2Transition)
      → (item : AutonomousDispatch) (rows after : Dispatches)
      → derive_transition work ≡ some transition
      → item.schedule_key ≡ schedule_key digest goal_revision work transition
      → item.status ≡ "DISPATCHED"
      → dispatch item rows ≡ some (after, true)
      → ¬ In work
          (without_dispatched digest goal_revision works
            (dispatched_schedule_keys item.runtime_identity after)).0
  unfolding was_dispatched key_dispatched
  dispatched_withheld rev works work t item rows after derived key status accepted m =
      let fresh =
        without_dispatched-fresh rev works (dispatched_schedule_keys item.runtime_identity after)
          work m in
      let recorded = dispatch-recorded item rows after status accepted in ground arith

-- A recorded dispatch that is neither WAITING nor FAILED is left as it stands.
upsert-final :
    (item row : AutonomousDispatch) (rows : Dispatches)
    → dispatch_record item.schedule_key rows ≡ some row
    → row.status ≢ "WAITING"
    → row.status ≢ "FAILED"
    → upsert_dispatch item rows ≡ rows
unfolding dispatch_record first upsert_dispatch may_retry
upsert-final item row [] e m n = absurd (ground arith)
upsert-final item row (r ∷ rows) e m n = elim (Bool-cases (r.schedule_key == item.schedule_key)) [
  | inl same ↦ ground arith
  | inr later ↦ ground (arith, upsert-final item row rows)
]

-- A valid dispatch, with values that can be quoted, of a key whose record is neither WAITING nor FAILED leaves the table as it is, and is
-- accepted exactly when the record already is the dispatch asked for.
pub dispatch-final :
    (item row : AutonomousDispatch) (rows : Dispatches)
    → valid_dispatch item ≡ true
    → dispatch_literals item ≡ true
    → dispatch_record item.schedule_key rows ≡ some row
    → row.status ≢ "WAITING"
    → row.status ≢ "FAILED"
    → dispatch item rows ≡ some (rows, same_dispatch row item)
unfolding dispatch found_same
dispatch-final item row rows valid quoted e m n =
    rw (upsert-final item row rows e m n) (rw valid (rw quoted (rw e refl)))
