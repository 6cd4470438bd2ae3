-- ===== src/V2AutonomousRuntime/RuntimeTable.antt =====
-- src/loop_engineering/v2_autonomous_runtime.py: the table `loop_autonomous_runtimes`, as the list of its
-- rows, whose key is the runtime's identity. `runtime_identity` of a registration is `json.dumps` followed
-- by `hashlib.sha256`.
use loop_engineering.Prelude.{
  ℕ, String, Bool, true, ◌&&◌, ◌||◌, not, Option, none, some, List, [], ◌∷◌, map,
}
use loop_engineering.Prelude.{
  ◌==◌, string_eq, if◌then◌else◌, contains, any, is_empty, leb, size, has_nul, first,
}

pub record AutonomousRuntimeState : Type 0 where
  pub runtime_identity : String
  pub product_key : String
  pub repository : String
  pub goal_revision : String
  pub status : String
  pub current_work_identity : Option String
  pub last_schedule_key : Option String
  pub last_progress_fingerprint : Option String
  pub no_progress_count : ℕ
  pub last_detail : String

abbrev pub runtime_statuses : List String
runtime_statuses = "ACTIVE" ∷ "WAITING" ∷ "INTERVENTION_REQUIRED" ∷ "COMPLETED" ∷ []

-- `_literal` quotes the value rather than raise.
unfoldable pub is_literal : String → Bool
is_literal value = not (has_nul value) && leb (size value) 100000

unfoldable pub is_nullable_literal : Option String → Bool
unfolding is_literal
is_nullable_literal none = true
is_nullable_literal (some value) = is_literal value

abbrev pub RuntimeRows : Type 0
RuntimeRows = List AutonomousRuntimeState

-- The fields of `ProductDevelopmentRegistration` that name a runtime.
pub record Registration : Type 0 where
  pub product_key : String
  pub repository_identity : String
  pub goal_definition_identity : String
  pub goal_revision : String

-- `get` on the row found; a row of another status is invalid.
unfoldable pub valid_row : Option AutonomousRuntimeState → Option (Option AutonomousRuntimeState)
valid_row none = some none
valid_row (some row) = if contains runtime_statuses row.status then some (some row) else none

-- `PostgreSQLAutonomousRuntimeStore.get`
unfoldable pub get : String → RuntimeRows → Option (Option AutonomousRuntimeState)
unfolding valid_row
get identity rows =
    if not (is_literal identity)
    then none
    else valid_row (first (λ (row : AutonomousRuntimeState). row.runtime_identity == identity) rows)

-- The row that `ensure_runtime` inserts, with the defaults of the table.
unfoldable pub new_runtime : String → Registration → AutonomousRuntimeState
new_runtime identity registration = record {
  runtime_identity = identity;
  product_key = registration.product_key;
  repository = registration.repository_identity;
  goal_revision = registration.goal_revision;
  status = "ACTIVE";
  current_work_identity = none;
  last_schedule_key = none;
  last_progress_fingerprint = none;
  no_progress_count = 0;
  last_detail = "";
}

-- `UNIQUE (product_key, repository, goal_revision)`
unfoldable pub same_goal : Registration → AutonomousRuntimeState → Bool
same_goal registration row =
    row.product_key == registration.product_key
    && row.repository == registration.repository_identity
    && row.goal_revision == registration.goal_revision

-- `INSERT ... ON CONFLICT (runtime_identity) DO NOTHING`, or `none` where it breaks the other key.
unfoldable pub insert_runtime : String → Registration → RuntimeRows → Option RuntimeRows
insert_runtime identity registration rows =
    if any (λ (row : AutonomousRuntimeState). row.runtime_identity == identity) rows
    then some rows
    else if any (same_goal registration) rows
    then none
    else some (new_runtime identity registration ∷ rows)

unfoldable pub ensured :
    Registration
    → RuntimeRows
    → Option AutonomousRuntimeState
    → Option (RuntimeRows × AutonomousRuntimeState)
ensured registration rows none = none
ensured registration rows (some state) =
    if same_goal registration state then some (rows, state) else none

unfoldable pub read_back :
    String → Registration → Option RuntimeRows → Option (RuntimeRows × AutonomousRuntimeState)
unfolding ensured
read_back identity registration none = none
read_back identity registration (some rows) = elim (get identity rows) [
  | none ↦ none
  | some found ↦ ensured registration rows found
]

-- `ensure_runtime`
unfoldable pub ensure_runtime :
    (Registration → String)
    → Registration
    → RuntimeRows
    → Option (RuntimeRows × AutonomousRuntimeState)
unfolding read_back
ensure_runtime runtime_identity registration rows =
    let identity = runtime_identity registration in
    let after = read_back identity registration (insert_runtime identity registration rows) in
    if not (is_literal identity)
      || not (is_literal registration.product_key)
      || not (is_literal registration.repository_identity)
      || not (is_literal registration.goal_revision)
    then none
    else after

-- The arguments of `update_runtime`.
pub record RuntimeUpdate : Type 0 where
  pub status : String
  pub current_work_identity : Option String
  pub schedule_key : Option String
  pub progress_fingerprint : Option String
  pub no_progress_count : ℕ
  pub detail : String

unfoldable pub valid_update : RuntimeUpdate → Bool
valid_update update =
    contains runtime_statuses update.status
    && not (is_empty update.detail)
    && leb (size update.detail) 1024
    && is_literal update.detail
    && is_nullable_literal update.current_work_identity
    && is_nullable_literal update.schedule_key
    && is_nullable_literal update.progress_fingerprint

unfoldable pub updated : RuntimeUpdate → AutonomousRuntimeState → AutonomousRuntimeState
updated update row = record {
  runtime_identity = row.runtime_identity;
  product_key = row.product_key;
  repository = row.repository;
  goal_revision = row.goal_revision;
  status = update.status;
  current_work_identity = update.current_work_identity;
  last_schedule_key = update.schedule_key;
  last_progress_fingerprint = update.progress_fingerprint;
  no_progress_count = update.no_progress_count;
  last_detail = update.detail;
}

-- `UPDATE loop_autonomous_runtimes ... WHERE runtime_identity = ...`
unfoldable pub update_rows : String → RuntimeUpdate → RuntimeRows → RuntimeRows
update_rows identity update rows =
    map
      (λ (row : AutonomousRuntimeState).
        if row.runtime_identity == identity then updated update row else row)
      rows

unfoldable pub present :
    RuntimeRows → Option AutonomousRuntimeState → Option (RuntimeRows × AutonomousRuntimeState)
present rows none = none
present rows (some state) = some (rows, state)

-- `update_runtime`
unfoldable pub update_runtime :
    String → RuntimeUpdate → RuntimeRows → Option (RuntimeRows × AutonomousRuntimeState)
unfolding present
update_runtime identity update rows =
    let after = update_rows identity update rows in
    if not (valid_update update)
    then none
    else elim (get identity after) [ none ↦ none | some found ↦ present after found ]
