-- ===== src/V2AutonomousRuntime.antt =====
-- src/loop_engineering/v2_autonomous_runtime.py: the dispatches of the autonomous runner, and what
-- src/loop_engineering/v2_autonomous_runner.py makes of them; the state of a run is in RuntimeTable.
-- The table `loop_autonomous_dispatches` is the list of its rows, whose key is the schedule key; a
-- statement is what it does to that list. An answer `none` is `AutonomousRuntimeUnavailable`. The
-- database is taken to be up, and a dispatch to belong to a runtime of its table; times are left out.
mod RuntimeTable
pub mod Dispatches
pub mod Runtimes
unfoldable pub use RuntimeTable.*
use mathlib.Core.Option
use loop_engineering.Prelude.{
  ℕ, String, Bool, true, false, ◌&&◌, ◌||◌, not, Option, none, some, List, [], ◌∷◌, map, ◌≡◌, refl,
}
use loop_engineering.Prelude.{
  Eq, ◌==◌, string_eq, if◌then◌else◌, ◌!=◌, contains, any, is_nil, is_empty, leb, size, has_nul,
  keep, first, option_eq,
}
use loop_engineering.V2Supervisor.{
  V2Transition, V2WorkObservation, V2ScheduleState, derive_transition, schedule_key,
}

pub record AutonomousDispatch : Type 0 where
  pub schedule_key : String
  pub runtime_identity : String
  pub work_identity : String
  pub transition : String
  pub status : String
  pub detail : String

abbrev pub dispatch_statuses : List String
dispatch_statuses = "DISPATCHED" ∷ "COMPLETED" ∷ "WAITING" ∷ "FAILED" ∷ "SUPERSEDED" ∷ []

abbrev pub Dispatches : Type 0
Dispatches = List AutonomousDispatch

-- `found == item` of two dataclasses.
unfoldable pub same_dispatch : AutonomousDispatch → AutonomousDispatch → Bool
same_dispatch a b =
    a.schedule_key == b.schedule_key
    && a.runtime_identity == b.runtime_identity
    && a.work_identity == b.work_identity
    && a.transition == b.transition
    && a.status == b.status
    && a.detail == b.detail

-- `dispatch_record`
unfoldable pub dispatch_record : String → Dispatches → Option AutonomousDispatch
dispatch_record key rows = first (λ (row : AutonomousDispatch). row.schedule_key == key) rows

-- The `WHERE` of `ON CONFLICT (schedule_key) DO UPDATE`.
unfoldable pub may_retry : AutonomousDispatch → AutonomousDispatch → Bool
may_retry row item =
    contains ("WAITING" ∷ "FAILED" ∷ []) row.status
    && row.runtime_identity == item.runtime_identity
    && row.work_identity == item.work_identity
    && row.transition == item.transition

abbrev pub with_status : String → String → AutonomousDispatch → AutonomousDispatch
with_status status detail row = record {
  schedule_key = row.schedule_key;
  runtime_identity = row.runtime_identity;
  work_identity = row.work_identity;
  transition = row.transition;
  status = status;
  detail = detail;
}

-- `INSERT ... ON CONFLICT (schedule_key) DO UPDATE SET ... WHERE ...`
unfoldable pub upsert_dispatch : AutonomousDispatch → Dispatches → Dispatches
upsert_dispatch item [] = item ∷ []
upsert_dispatch item (row ∷ rows) =
    let rest = upsert_dispatch item rows in
    if row.schedule_key == item.schedule_key
    then (if may_retry row item then with_status item.status item.detail row else row) ∷ rows
    else row ∷ rest

unfoldable pub dispatch_literals : AutonomousDispatch → Bool
dispatch_literals item =
    is_literal item.schedule_key
    && is_literal item.runtime_identity
    && is_literal item.work_identity
    && is_literal item.transition
    && is_literal item.status
    && is_literal item.detail

-- The test at the start of `dispatch`.
unfoldable pub valid_dispatch : AutonomousDispatch → Bool
valid_dispatch item =
    contains dispatch_statuses item.status
    && not (is_empty item.schedule_key)
    && not (is_empty item.runtime_identity)
    && not (is_empty item.work_identity)
    && not (is_empty item.transition)
    && leb (size item.detail) 1024

found_same : Option AutonomousDispatch → AutonomousDispatch → Bool
found_same none item = false
found_same (some found) item = same_dispatch found item

-- `PostgreSQLAutonomousRuntimeStore.dispatch`
unfoldable pub dispatch : AutonomousDispatch → Dispatches → Option (Dispatches × Bool)
unfolding found_same
dispatch item rows =
    let after = upsert_dispatch item rows in
    if not (valid_dispatch item) || not (dispatch_literals item)
    then none
    else some (after, found_same (dispatch_record item.schedule_key after) item)

-- `update_dispatch`
unfoldable pub update_dispatch : String → String → String → Dispatches → Option Dispatches
update_dispatch key status detail rows =
    if not (contains dispatch_statuses status)
      || is_empty detail
      || not (leb (size detail) 1024)
      || not (is_literal status)
      || not (is_literal detail)
      || not (is_literal key)
    then none
    else some (
        map
          (λ (row : AutonomousDispatch).
            if row.schedule_key == key then with_status status detail row else row)
          rows)

is_dispatched : String → AutonomousDispatch → Bool
is_dispatched runtime row =
    row.runtime_identity == runtime && contains ("DISPATCHED" ∷ "COMPLETED" ∷ []) row.status

-- `dispatched_schedule_keys`, a set, as a list.
unfoldable pub dispatched_schedule_keys : String → Dispatches → List String
unfolding is_dispatched
dispatched_schedule_keys runtime rows =
    map (λ (row : AutonomousDispatch). row.schedule_key) (keep (is_dispatched runtime) rows)

-- `_dispatch_status`
pub data TransitionExecutionStatus : Type 0 where
  progressed waiting failed intervention_required : TransitionExecutionStatus

unfoldable pub dispatch_status : TransitionExecutionStatus → String
dispatch_status progressed = "COMPLETED"
dispatch_status waiting = "WAITING"
dispatch_status _ = "FAILED"

module _ (digest : V2ScheduleState → String) where
  key_dispatched : String → List String → V2WorkObservation → Option V2Transition → Bool
  key_dispatched goal_revision dispatched work none = false
  key_dispatched goal_revision dispatched work (some transition) =
      contains dispatched (schedule_key digest goal_revision work transition)

  -- The key of the work's derived transition stands among the dispatched ones.
  unfoldable pub was_dispatched : String → List String → V2WorkObservation → Bool
  unfolding key_dispatched
  was_dispatched goal_revision dispatched work =
      key_dispatched goal_revision dispatched work (derive_transition work)

  -- `_without_dispatched`: the works kept, and whether an incomplete one was suppressed.
  unfoldable pub without_dispatched :
      String → List V2WorkObservation → List String → List V2WorkObservation × Bool
  without_dispatched goal_revision [] dispatched = ([], false)
  without_dispatched goal_revision (work ∷ works) dispatched =
      let (kept, suppressed) = without_dispatched goal_revision works dispatched in
      if was_dispatched goal_revision dispatched work
      then (kept, work.lifecycle != "COMPLETED" || suppressed)
      else (work ∷ kept, suppressed)

-- `_current_if_selectable`
unfoldable pub current_if_selectable : Option String → List V2WorkObservation → Option String
current_if_selectable none works = none
current_if_selectable (some current) works =
    if any (λ (work : V2WorkObservation). work.work_identity == current) works
    then some current
    else none
