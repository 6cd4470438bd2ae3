-- ===== src/V2AutonomousRunner/Recorded.antt =====
-- What the actions of src/loop_engineering/v2_autonomous_runner.py leave of the recorded dispatches.
use loop_engineering.Prelude.{
  String, Bool, true, ◌≡◌, refl, ◌∙◌, inl, inr, Option, none, some, [], ◌∷◌, map, arith,
}
use loop_engineering.Prelude.{◌==◌, string_eq, any, if◌then◌else◌, Bool-cases}
use loop_engineering.V2AutonomousRuntime.{
  RuntimeRows, AutonomousDispatch, Dispatches, upsert_dispatch, with_status,
}
use loop_engineering.V2AutonomousRunner.Action.{
  World, Action, chain, call, put_outside, on_runtimes, put_runtimes, on_dispatches, put_dispatches,
}

-- There is a row of the key.
unfoldable pub has_key : String → Dispatches → Bool
has_key key rows = any (λ (row : AutonomousDispatch). row.schedule_key == key) rows

pub upsert-has_key :
    (item : AutonomousDispatch) (rows : Dispatches) (key : String)
    → has_key key rows ≡ true
    → has_key key (upsert_dispatch item rows) ≡ true
unfolding has_key upsert_dispatch any
upsert-has_key item [] key h = absurd (ground arith)
upsert-has_key item (row ∷ rows) key h = elim (Bool-cases (has_key key rows)) [
  | inl later ↦ ground (arith, upsert-has_key item rows key later)
  | inr missing ↦ ground arith
]

pub upsert-own :
    (item : AutonomousDispatch) (rows : Dispatches)
    → has_key item.schedule_key (upsert_dispatch item rows) ≡ true
unfolding has_key upsert_dispatch any
upsert-own item [] = ground arith
upsert-own item (row ∷ rows) = ground (arith, upsert-own item rows)

pub status-has_key :
    (key status detail : String) (rows : Dispatches) (other : String)
    → has_key other (
        map
          (λ (row : AutonomousDispatch).
            if row.schedule_key == key then with_status status detail row else row)
          rows)
      ≡ has_key other rows
unfolding has_key any
status-has_key key status detail [] other = refl
status-has_key key status detail (row ∷ rows) other =
    ground (arith, status-has_key key status detail rows other)

-- No recorded key is lost, and nothing is executed.
pub record Keeps {W : Type 0} (w v : World W) : Type 0 where
  pub recorded : (key : String) → has_key key w.dispatches ≡ true → has_key key v.dispatches ≡ true
  pub executed : v.executed ≡ w.executed

module _ {W : Type 0} where
  pub Keeps-refl : (w : World W) → Keeps w w
  Keeps-refl w = record { recorded = λ key h. h; executed = refl }

  pub Keeps-trans : (u v w : World W) → Keeps u v → Keeps v w → Keeps u w
  Keeps-trans u v w h k = record {
    recorded = λ key m. k.recorded key (h.recorded key m);
    executed = k.executed ∙ h.executed;
  }

  pub chain-some {ℓ κ} :
      {A : Type ℓ} {B : Type κ} (f : A → Action W B) (m : Option (A × World W)) {b : B}
      {w : World W}
      → chain f m ≡ some (b, w)
      → (a : A) × (v : World W) × (m ≡ some (a, v)) × (f a v ≡ some (b, w))
  chain-some f none h = absurd (ground arith)
  chain-some f (some (a, v)) h = (a, v, refl, h)

  pub call-Keeps {ℓ} :
      {A : Type ℓ} (port : W → Option (A × W)) (w v : World W) (a : A)
      → call port w ≡ some (a, v)
      → Keeps w v
  unfolding call put_outside
  call-Keeps {A = A} port w v a h = put (port w.outside) h
    where
      put : (o : Option (A × W)) → put_outside w o ≡ some (a, v) → Keeps w v
      put none e = absurd (ground arith)
      put (some (b, x)) e = record { recorded = λ key m. ground arith; executed = ground arith }

  pub runtimes-Keeps {ℓ} :
      {A : Type ℓ} (statement : RuntimeRows → Option (RuntimeRows × A)) (w v : World W) (a : A)
      → on_runtimes statement w ≡ some (a, v)
      → Keeps w v
  unfolding on_runtimes put_runtimes
  runtimes-Keeps {A = A} statement w v a h = put (statement w.runtimes) h
    where
      put : (o : Option (RuntimeRows × A)) → put_runtimes w o ≡ some (a, v) → Keeps w v
      put none e = absurd (ground arith)
      put (some (rows, b)) e = record { recorded = λ key m. ground arith; executed = ground arith }

  -- A statement on the dispatches, in parts.
  pub on_dispatches-some {ℓ} :
      {A : Type ℓ} (statement : Dispatches → Option (Dispatches × A)) (w v : World W) (a : A)
      → on_dispatches statement w ≡ some (a, v)
      → (rows : Dispatches) × (statement w.dispatches ≡ some (rows, a))
        × (v ≡ record w { dispatches = rows })
  unfolding on_dispatches put_dispatches
  on_dispatches-some {A = A} statement w v a h = put (statement w.dispatches) refl h
    where
      put :
          (o : Option (Dispatches × A))
          → statement w.dispatches ≡ o
          → put_dispatches w o ≡ some (a, v)
          → (rows : Dispatches) × (statement w.dispatches ≡ some (rows, a))
            × (v ≡ record w { dispatches = rows })
      put none q e = absurd (ground arith)
      put (some (rows, b)) q e = (rows, ground arith, ground arith)
