-- ===== src/Selection.antt =====
-- The order in which a supervisor prefers works: `min` by a key of three numbers, priority first,
-- as in `select_work` of src/loop_engineering/scheduler.py and `_select` of
-- src/loop_engineering/v2_supervisor.py.
use mathlib.Core.Path.{subst}
use mathlib.Core.Option.{some-injective}
use loop_engineering.Prelude.{ℕ, Bool, true, false, ◌≡◌, refl, Option, none, some}
use loop_engineering.Prelude.{String, List, [], ◌∷◌, arith, inl, inr, ◌==◌, string_eq, option_eq}
use loop_engineering.Prelude.{if◌then◌else◌, ltb, min_from, In, here, there, All, Bool-cases}

pub record SelectionKey : Type 0 where
  pub priority : ℕ
  pub progress : ℕ
  pub issue : ℕ

-- Python's order of tuples.
abbrev pub key_lt : SelectionKey → SelectionKey → Bool
key_lt a b =
    if ltb a.priority b.priority
    then true
    else if ltb b.priority a.priority
    then false
    else if ltb a.progress b.progress
    then true
    else if ltb b.progress a.progress
    then false
    else ltb a.issue b.issue

-- `_PRIORITY.get(priority or "", 4)`
unfoldable pub priority_rank : Option String → ℕ
priority_rank none = 4
priority_rank (some p) =
    if p == "P0"
    then 0
    else if p == "P1"
    then 1
    else if p == "P2"
    then 2
    else if p == "P3"
    then 3
    else 4

-- `0 if project_status == "In progress" else 1`
unfoldable pub progress_rank : Option String → ℕ
unfolding option_eq
progress_rank status = if status == some "In progress" then 0 else 1

pub key_lt_trans :
    (a b c : SelectionKey) → key_lt a b ≡ false → key_lt b c ≡ false → key_lt a c ≡ false
key_lt_trans a b c p q = ground arith

key_lt_asymm : (a b : SelectionKey) → key_lt a b ≡ true → key_lt b a ≡ false
key_lt_asymm a b p = ground arith

key_lt_irrefl : (a : SelectionKey) → key_lt a a ≡ false
key_lt_irrefl a = ground arith

module _ {ℓ} {A : Type ℓ} (key : A → SelectionKey) where
  abbrev pub by_key : A → A → Bool
  by_key x y = key_lt (key x) (key y)

  -- `min(xs, key=key)` of a list that is not empty; `None` for the empty list, as the callers test.
  unfoldable pub least : List A → Option A
  least [] = none
  least (x ∷ xs) = some (min_from by_key x xs)

  -- No element of the list comes before the value in the order of the keys.
  abbrev pub IsLeast : A → List A → Type 0
  IsLeast m xs = All (λ x. key_lt (key x) (key m) ≡ false) xs

  abbrev FoundLeast : A → List A → Type 0
  FoundLeast y ys =
      (key_lt (key y) (key (min_from by_key y ys)) ≡ false) × IsLeast (min_from by_key y ys) ys

  min_from-least : (best : A) (xs : List A) → FoundLeast best xs
  unfolding min_from
  min_from-least best [] = (key_lt_irrefl (key best), tt)
  min_from-least best (x ∷ xs) =
      choose (by_key x best) refl (min_from-least x xs) (min_from-least best xs)
    where
      choose :
          (b : Bool)
          → by_key x best ≡ b
          → FoundLeast x xs
          → FoundLeast best xs
          → let m = min_from by_key (if b then x else best) xs in
            (key_lt (key best) (key m) ≡ false) × IsLeast m (x ∷ xs)
      choose true e p q = (
        key_lt_trans (key best) (key x) (key (min_from by_key x xs))
            (key_lt_asymm (key x) (key best) e) p.0,
        p,
      )
      choose false e p q =
          (q.0, (key_lt_trans (key x) (key best) (key (min_from by_key best xs)) e q.0, q.1))

  min_from-In : (best : A) (xs : List A) → In (min_from by_key best xs) (best ∷ xs)
  unfolding min_from
  min_from-In best [] = here refl
  min_from-In best (x ∷ xs) = elim (Bool-cases (by_key x best)) [
    | inl better ↦ rw better (there (min_from-In x xs))
    | inr worse ↦ rw worse (skip (min_from-In best xs))
  ]
    where
      skip : {m : A} → In m (best ∷ xs) → In m (best ∷ x ∷ xs)
      skip (here e) = here e
      skip (there m) = there (there m)

  pub least-IsLeast : (xs : List A) {m : A} → least xs ≡ some m → In m xs × IsLeast m xs
  unfolding least
  least-IsLeast [] h = cc
  least-IsLeast (x ∷ xs) {m} h =
      subst (λ k. In k (x ∷ xs) × IsLeast k (x ∷ xs)) (some-injective _ _ h)
        (min_from-In x xs, min_from-least x xs)

  pub least-eq-none : (xs : List A) → least xs ≡ none → xs ≡ []
  unfolding least
  least-eq-none [] h = refl
  least-eq-none (x ∷ xs) h = cc
