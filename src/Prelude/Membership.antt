-- ===== src/Prelude/Membership.antt =====
-- What the members of a filtered or searched list satisfy.
use mathlib.Core.Path.{◌≡◌, refl, sym, subst}
use mathlib.Core.Option.{some}
use mathlib.Core.Bool.{Bool, true, false}
use mathlib.Core.List.{List, [], ◌∷◌}
use native.Mathlib.Omega.{arith}
use loop_engineering.Prelude.Equality.{if◌then◌else◌, Bool-cases}
use loop_engineering.Prelude.Lists.{keep, first, any, all, In, here, there, All, insert_by, sort_by}
use mathlib.Core.Logic.{◌⊎◌, inl, inr}

module _ {ℓ} {A : Type ℓ} (p : A → Bool) where
  pub keep-In : (xs : List A) {x : A} → In x (keep p xs) → In x xs × (p x ≡ true)
  unfolding keep
  keep-In [] h = elim h [ ]
  keep-In (y ∷ xs) {x} h = split (p y) refl (keep-In xs) h
    where
      split :
          (b : Bool)
          → p y ≡ b
          → (In x (keep p xs) → In x xs × (p x ≡ true))
          → In x (if b then y ∷ keep p xs else keep p xs)
          → In x (y ∷ xs) × (p x ≡ true)
      split true e rest (here m) = (here m, subst (λ z. p z ≡ true) (sym m) e)
      split true e rest (there m) = (there (rest m).0, (rest m).1)
      split false e rest m = (there (rest m).0, (rest m).1)

  pub first-In : (xs : List A) {x : A} → first p xs ≡ some x → In x xs × (p x ≡ true)
  unfolding first
  first-In [] h = cc
  first-In (y ∷ xs) {x} h = elim (Bool-cases (p y)) [
    | inl hit ↦ let e : y ≡ x = ground arith in (here (sym e), cc)
    | inr miss ↦ let (m, t) = first-In xs (ground arith) in (there m, t)
  ]

  -- An empty selection: no member passes.
  pub keep-nil : (xs : List A) → keep p xs ≡ [] → All (λ x. p x ≡ false) xs
  unfolding keep
  keep-nil [] h = tt
  keep-nil (x ∷ xs) h = (ground arith, keep-nil xs (ground arith))

  pub nil-keep : (xs : List A) → All (λ x. p x ≡ false) xs → keep p xs ≡ []
  unfolding keep
  nil-keep [] h = refl
  nil-keep (x ∷ xs) h = ground (arith, nil-keep xs h.1)

  pub all-All : (xs : List A) → all p xs ≡ true → All (λ x. p x ≡ true) xs
  unfolding all
  all-All [] h = tt
  all-All (x ∷ xs) h = (ground arith, all-All xs (ground arith))

  pub All-all : (xs : List A) → All (λ x. p x ≡ true) xs → all p xs ≡ true
  unfolding all
  All-all [] h = refl
  All-all (x ∷ xs) h = ground (arith, All-all xs h.1)

  pub any-All : (xs : List A) → any p xs ≡ false → All (λ x. p x ≡ false) xs
  unfolding any
  any-All [] h = tt
  any-All (x ∷ xs) h = (ground arith, any-All xs (ground arith))

  pub All-any : (xs : List A) → All (λ x. p x ≡ false) xs → any p xs ≡ false
  unfolding any
  All-any [] h = refl
  All-any (x ∷ xs) h = ground (arith, All-any xs h.1)

  pub any-In : (xs : List A) → any p xs ≡ true → (x : A) × In x xs × (p x ≡ true)
  unfolding any
  any-In [] h = cc
  any-In (x ∷ xs) h = elim (Bool-cases (p x)) [
    | inl hit ↦ (x, here refl, hit)
    | inr miss ↦ let (y, m, t) = any-In xs (ground arith) in (y, there m, t)
  ]

pub All-In {ℓ κ} : {A : Type ℓ} (P : A → Type κ) (xs : List A) {x : A} → All P xs → In x xs → P x
All-In P [] h m = elim m [ ]
All-In P (y ∷ xs) h (here e) = subst P (sym e) h.0
All-In P (y ∷ xs) h (there m) = All-In P xs h.1 m

-- Sorting keeps the members.
insert_by-In {ℓ} :
    {A : Type ℓ} (le : A → A → Bool) (a : A) (xs : List A) {x : A}
    → In x (insert_by le a xs)
    → (x ≡ a) ⊎ In x xs
unfolding insert_by
insert_by-In le a [] (here e) = inl e
insert_by-In le a [] (there m) = elim m [ ]
insert_by-In le a (y ∷ ys) {x} m = by_test (Bool-cases (le a y)) m (insert_by-In le a ys)
  where
    Either : Type ℓ
    Either = (x ≡ a) ⊎ In x (y ∷ ys)

    first_in : In x (a ∷ y ∷ ys) → Either
    first_in (here e) = inl e
    first_in (there q) = inr q

    later_in :
        In x (y ∷ insert_by le a ys) → (In x (insert_by le a ys) → (x ≡ a) ⊎ In x ys) → Either
    later_in (here e) ih = inr (here e)
    later_in (there q) ih = elim (ih q) [ inl e ↦ inl e | inr r ↦ inr (there r) ]

    by_test :
        (le a y ≡ true) ⊎ (le a y ≡ false)
        → In x (insert_by le a (y ∷ ys))
        → (In x (insert_by le a ys) → (x ≡ a) ⊎ In x ys)
        → Either
    by_test (inl before) q ih =
        first_in (subst (λ b. In x (if b then a ∷ y ∷ ys else y ∷ insert_by le a ys)) before q)
    by_test (inr after) q ih =
        later_in (subst (λ b. In x (if b then a ∷ y ∷ ys else y ∷ insert_by le a ys)) after q) ih

pub sort_by-In {ℓ} :
    {A : Type ℓ} (le : A → A → Bool) (xs : List A) {x : A} → In x (sort_by le xs) → In x xs
unfolding sort_by
sort_by-In le [] m = elim m [ ]
sort_by-In le (a ∷ xs) m = elim (insert_by-In le a (sort_by le xs) m) [
  | inl e ↦ here e
  | inr later ↦ there (sort_by-In le xs later)
]

In-insert_by {ℓ} :
    {A : Type ℓ} (le : A → A → Bool) (a : A) (xs : List A) {x : A}
    → (x ≡ a) ⊎ In x xs
    → In x (insert_by le a xs)
unfolding insert_by
In-insert_by le a [] (inl e) = here e
In-insert_by le a [] (inr m) = elim m [ ]
In-insert_by le a (y ∷ ys) {x} m = by_test (Bool-cases (le a y)) m (In-insert_by le a ys)
  where
    early : (x ≡ a) ⊎ In x (y ∷ ys) → In x (a ∷ y ∷ ys)
    early (inl e) = here e
    early (inr q) = there q

    late :
        (x ≡ a) ⊎ In x (y ∷ ys)
        → ((x ≡ a) ⊎ In x ys → In x (insert_by le a ys))
        → In x (y ∷ insert_by le a ys)
    late (inl e) ih = there (ih (inl e))
    late (inr (here e)) ih = here e
    late (inr (there q)) ih = there (ih (inr q))

    by_test :
        (le a y ≡ true) ⊎ (le a y ≡ false)
        → (x ≡ a) ⊎ In x (y ∷ ys)
        → ((x ≡ a) ⊎ In x ys → In x (insert_by le a ys))
        → In x (insert_by le a (y ∷ ys))
    by_test (inl before) q ih =
        subst (λ b. In x (if b then a ∷ y ∷ ys else y ∷ insert_by le a ys)) (sym before) (early q)
    by_test (inr after) q ih =
        subst (λ b. In x (if b then a ∷ y ∷ ys else y ∷ insert_by le a ys)) (sym after) (late q ih)

pub In-sort_by {ℓ} :
    {A : Type ℓ} (le : A → A → Bool) (xs : List A) {x : A} → In x xs → In x (sort_by le xs)
unfolding sort_by
In-sort_by le [] m = elim m [ ]
In-sort_by le (a ∷ xs) (here e) = In-insert_by le a (sort_by le xs) (inl e)
In-sort_by le (a ∷ xs) (there m) = In-insert_by le a (sort_by le xs) (inr (In-sort_by le xs m))
