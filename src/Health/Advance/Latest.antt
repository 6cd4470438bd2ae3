-- ===== src/Health/Advance/Latest.antt =====
-- src/loop_engineering/health.py: the events that `advance_health` starts from.
use mathlib.Core.Option
use mathlib.Core.Path.{subst}
use loop_engineering.Prelude.{
  String, false, ◌≡◌, refl, inl, inr, Option, none, some, List, [], ◌∷◌, arith, map,
}
use loop_engineering.Prelude.{string_eq, Bool-cases, All, In, here, there}
use loop_engineering.Models.{LoopHealthEvent}
use loop_engineering.Health.{durable_identity}
use loop_engineering.Health.Advance.{
  health_kind_eq, same_key, put, indexed, canonicalize_event, canonicalized,
}

-- An event of the list that no later event has the kind and the fingerprint of.
pub data IsLatest (e : LoopHealthEvent) : List LoopHealthEvent → Type 0 where
  last :
      {later : List LoopHealthEvent}
      → All (λ (x : LoopHealthEvent). ¬ ((x.kind ≡ e.kind) × (x.fingerprint ≡ e.fingerprint))) later
      → IsLatest e (e ∷ later)
  before :
      {x : LoopHealthEvent} {later : List LoopHealthEvent}
      → IsLatest e later
      → IsLatest e (x ∷ later)

put-own : (e : LoopHealthEvent) (es : List LoopHealthEvent) → In e (put e es)
unfolding put
put-own e [] = here refl
put-own e (x ∷ es) = elim (Bool-cases (same_key x e)) [
  | inl same ↦ subst (In e) (ground arith) (In.here {xs = es} refl)
  | inr other ↦ subst (In e) (ground arith) (In.there {x = x} (put-own e es))
]

put-other :
    (e x : LoopHealthEvent) (es : List LoopHealthEvent)
    → same_key e x ≡ false
    → In e es
    → In e (put x es)
unfolding put
put-other e x [] differ m = elim m [ ]
put-other e x (y ∷ es) differ (here q) =
    let apart : same_key y x ≡ false = subst (λ o. same_key o x ≡ false) q differ in
    subst (In e) (ground arith) (In.here {xs = put x es} q)
put-other e x (y ∷ es) differ (there m) = elim (Bool-cases (same_key y x)) [
  | inl same ↦ subst (In e) (ground arith) (In.there {x = x} m)
  | inr apart ↦ subst (In e) (ground arith) (In.there {x = y} (put-other e x es differ m))
]

not-same_key :
    (e x : LoopHealthEvent)
    → ¬ ((x.kind ≡ e.kind) × (x.fingerprint ≡ e.fingerprint))
    → same_key e x ≡ false
unfolding same_key
not-same_key e x differ = elim (Bool-cases (same_key e x)) [
  | inl same ↦ absurd (differ (ground arith, ground arith))
  | inr apart ↦ ground arith
]

indexed-In :
    (e : LoopHealthEvent) (taken later : List LoopHealthEvent)
    → In e taken
    → All (λ (x : LoopHealthEvent). ¬ ((x.kind ≡ e.kind) × (x.fingerprint ≡ e.fingerprint))) later
    → In e (indexed taken later)
unfolding indexed
indexed-In e taken [] m differ = m
indexed-In e taken (x ∷ later) m differ =
    indexed-In e (put x taken) later (put-other e x taken (not-same_key e x differ.0) m) differ.1

pub indexed-latest :
    (e : LoopHealthEvent) (taken events : List LoopHealthEvent)
    → IsLatest e events
    → In e (indexed taken events)
unfolding indexed
indexed-latest e taken events (last {later} differ) =
    indexed-In e (put e taken) later (put-own e taken) differ
indexed-latest e taken events (before {x} {later} l) = indexed-latest e (put x taken) later l

module _ (sha256 : String → String) where
  -- The events in their canonical form, one for one.
  pub data Canonical : List LoopHealthEvent → List LoopHealthEvent → Type 0 where
    none_left : Canonical [] []
    one_more :
        {e : LoopHealthEvent} {events canonical : List LoopHealthEvent}
        → Canonical events canonical
        → Canonical (e ∷ events) (
            record e {
              fingerprint = durable_identity sha256 e.fingerprint;
              source_refs = map (durable_identity sha256) e.source_refs;
            }
            ∷ canonical)

  both_parts :
      (o : Option LoopHealthEvent) (p : Option (List LoopHealthEvent))
      (events : List LoopHealthEvent)
      → Option.bind o (λ c. Option.map (λ cs. c ∷ cs) p) ≡ some events
      → (c : LoopHealthEvent) × (later : List LoopHealthEvent) × (o ≡ some c)
        × (p ≡ some later)
        × (c ∷ later ≡ events)
  unfolding Option.bind
  both_parts none p events h = absurd (ground arith)
  both_parts (some c) none events h = absurd (ground arith)
  both_parts (some c) (some later) events h = (c, later, refl, refl, ground arith)

  pub canonicalized-Canonical :
      (previous events : List LoopHealthEvent)
      → canonicalized sha256 previous ≡ some events
      → Canonical previous events
  unfolding canonicalized canonicalize_event
  canonicalized-Canonical [] events h = subst (Canonical []) (ground arith) none_left
  canonicalized-Canonical (e ∷ previous) events h =
      let (c, later, one, rest, same) =
        both_parts (canonicalize_event sha256 e) (canonicalized sha256 previous) events h in
      subst (Canonical (e ∷ previous)) (ground arith)
        (one_more (canonicalized-Canonical previous later rest))
