-- ===== src/V2AutonomousRunner/Action.antt =====
-- The calls of src/loop_engineering/v2_autonomous_runner.py as actions on a world: what is outside, of a
-- type of its own, the tables of the runtime store, and the schedule keys of the transitions that were
-- executed, in order. An action without an answer has raised an exception.
use loop_engineering.Prelude.{String, Option, none, some, List}
use loop_engineering.V2AutonomousRuntime.{RuntimeRows, Dispatches}

pub record World (W : Type 0) : Type 0 where
  pub outside : W
  pub runtimes : RuntimeRows
  pub dispatches : Dispatches
  pub executed : List String

abbrev pub Action {ℓ} : Type 0 → Type ℓ → Type ℓ
Action W A = World W → Option (A × World W)

module _ {W : Type 0} where
  -- Past an exception nothing is done.
  abbrev pub chain {ℓ κ} :
      {A : Type ℓ} {B : Type κ} → (A → Action W B) → Option (A × World W) → Option (B × World W)
  chain f none = none
  chain f (some (a, w)) = f a w

  infixl 5 ◌>>=◌ ◌>>◌
  abbrev pub ◌>>=◌ {ℓ κ} : {A : Type ℓ} {B : Type κ} → Action W A → (A → Action W B) → Action W B
  (m >>= f) w = chain f (m w)

  abbrev pub ◌>>◌ {ℓ κ} : {A : Type ℓ} {B : Type κ} → Action W A → Action W B → Action W B
  m >> k = m >>= λ _. k

  abbrev pub return {ℓ} : {A : Type ℓ} → A → Action W A
  return a w = some (a, w)

  abbrev pub raise {ℓ} : {A : Type ℓ} → Action W A
  raise w = none

  abbrev pub given {ℓ} : {A : Type ℓ} → Option A → Action W A
  given none = raise
  given (some a) = return a

  unfoldable pub put_outside {ℓ} : {A : Type ℓ} → World W → Option (A × W) → Option (A × World W)
  put_outside w none = none
  put_outside w (some (a, o)) = some (a, record w { outside = o })

  -- A call of a port.
  unfoldable pub call {ℓ} : {A : Type ℓ} → (W → Option (A × W)) → Action W A
  call port w = put_outside w (port w.outside)

  unfoldable pub put_runtimes {ℓ} :
      {A : Type ℓ} → World W → Option (RuntimeRows × A) → Option (A × World W)
  put_runtimes w none = none
  put_runtimes w (some (rows, a)) = some (a, record w { runtimes = rows })

  -- A call of the runtime store on its runtimes, or on its dispatches.
  unfoldable pub on_runtimes {ℓ} :
      {A : Type ℓ} → (RuntimeRows → Option (RuntimeRows × A)) → Action W A
  on_runtimes statement w = put_runtimes w (statement w.runtimes)

  unfoldable pub put_dispatches {ℓ} :
      {A : Type ℓ} → World W → Option (Dispatches × A) → Option (A × World W)
  put_dispatches w none = none
  put_dispatches w (some (rows, a)) = some (a, record w { dispatches = rows })

  unfoldable pub on_dispatches {ℓ} :
      {A : Type ℓ} → (Dispatches → Option (Dispatches × A)) → Action W A
  on_dispatches statement w = put_dispatches w (statement w.dispatches)
