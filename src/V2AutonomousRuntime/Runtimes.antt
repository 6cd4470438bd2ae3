-- ===== src/V2AutonomousRuntime/Runtimes.antt =====
-- What is kept of a runtime.
use mathlib.Core.Option
use loop_engineering.Prelude.{String, true, ◌≡◌, refl, inl, inr, some, [], ◌∷◌, arith}
use loop_engineering.Prelude.{◌==◌, string_eq, first, any, Bool-cases, Option-cases}
use loop_engineering.V2AutonomousRuntime.{
  AutonomousRuntimeState, Registration, RuntimeRows, get, valid_row, same_goal, insert_runtime,
  new_runtime, ensured, read_back, ensure_runtime, RuntimeUpdate, valid_update, updated,
  update_rows, present, update_runtime, is_literal,
}

update-get :
    (identity : String) (update : RuntimeUpdate) (rows : RuntimeRows)
    → first
        (λ (row : AutonomousRuntimeState). row.runtime_identity == identity)
        (update_rows identity update rows)
      ≡ Option.map
          (updated update)
          (first (λ (row : AutonomousRuntimeState). row.runtime_identity == identity) rows)
unfolding update_rows first updated
update-get identity update [] = refl
update-get identity update (row ∷ rows) = elim (Bool-cases (row.runtime_identity == identity)) [
  | inl same ↦ ground arith
  | inr other ↦ ground (arith, update-get identity update rows)
]

-- A valid update of a runtime that is in the table, under an identity that can be quoted, answers with
-- that row as it now stands: its goal as before, the rest as it was given.
pub update_runtime-get :
    (identity : String) (update : RuntimeUpdate) (rows : RuntimeRows) (row : AutonomousRuntimeState)
    → is_literal identity ≡ true
    → valid_update update ≡ true
    → first (λ (r : AutonomousRuntimeState). r.runtime_identity == identity) rows ≡ some row
    → update_runtime identity update rows
      ≡ some (update_rows identity update rows, updated update row)
unfolding update_runtime get valid_row valid_update present updated
update_runtime-get identity update rows row literal valid found =
    ground (arith, update-get identity update rows)

insert_again :
    (identity : String) (registration : Registration) (rows after : RuntimeRows)
    → insert_runtime identity registration rows ≡ some after
    → any (λ (row : AutonomousRuntimeState). row.runtime_identity == identity) after ≡ true
unfolding insert_runtime new_runtime any
insert_again identity registration rows after h = ground arith

-- The runtime that `ensure_runtime` answers with is of the registration's goal, and to ensure it again
-- changes nothing: the same table and the same state.
pub ensure_runtime-again :
    (runtime_identity : Registration → String) (registration : Registration)
    (rows after : RuntimeRows)
    → (state : AutonomousRuntimeState)
    → ensure_runtime runtime_identity registration rows ≡ some (after, state)
    → (ensure_runtime runtime_identity registration after ≡ some (after, state))
      × (state.product_key ≡ registration.product_key)
      × (state.repository ≡ registration.repository_identity)
      × (state.goal_revision ≡ registration.goal_revision)
unfolding ensure_runtime read_back ensured same_goal insert_runtime
ensure_runtime-again rid registration rows after state h =
    elim (Option-cases (insert_runtime (rid registration) registration rows)) [
      | inl broken ↦ absurd (ground arith)
      | inr (written, e) ↦ elim (Option-cases (get (rid registration) written)) [
        | inl bad ↦ absurd (ground arith)
        | inr (found, g) ↦ elim (Option-cases found) [
          | inl missing ↦ absurd (ground arith)
          | inr (row, r) ↦
              let known = insert_again (rid registration) registration rows written e in
              let same : written ≡ after = ground arith in
              (ground arith, ground arith, ground arith, ground arith)
        ]
      ]
    ]
