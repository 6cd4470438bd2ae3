-- ===== src/Health/Advance/Growth.antt =====
-- What a decision adds to the events, and what it keeps of them.
use mathlib.Core.Path.{subst}
use loop_engineering.Prelude.{
  ℕ, ◌≤◌, String, Bool, true, false, ◌≡◌, refl, inl, inr, Option, some, List, [], ◌∷◌, ◌++◌, arith,
  ◌∙◌, sym, map,
}
use loop_engineering.Prelude.{
  string_eq, if◌then◌else◌, keep, In, here, there, sort_by, In-sort_by, Option-cases,
}
use loop_engineering.Models.{ConflictKind, RunDisposition, LoopHealthEvent}
use loop_engineering.Health.Advance.{
  health_kind_eq, is_stale, is_intervention, duplicate_event, stale_event, manual_event, new_event,
  same_key, merged, occur, occur_all, occurred, indexed, canonicalized, key_le, advance_health,
}
use loop_engineering.Health.Advance.Latest.{
  IsLatest, Canonical, indexed-latest, canonicalized-Canonical,
}

-- An event of the same kind and fingerprint, seen at least as often.
pub record IsKept (events : List LoopHealthEvent) (e : LoopHealthEvent) : Type 0 where
  pub event : LoopHealthEvent
  pub seen : In event events
  pub kind : event.kind ≡ e.kind
  pub fingerprint : event.fingerprint ≡ e.fingerprint
  pub count : e.occurrence_count ≤ event.occurrence_count

IsKept-here : (events : List LoopHealthEvent) (e : LoopHealthEvent) → In e events → IsKept events e
IsKept-here events e m = record {
  event = e;
  seen = m;
  kind = refl;
  fingerprint = refl;
  count = ground arith;
}

IsKept-there :
    (x : LoopHealthEvent) (events : List LoopHealthEvent) (e : LoopHealthEvent)
    → IsKept events e
    → IsKept (x ∷ events) e
IsKept-there x events e k = record {
  event = k.event;
  seen = there k.seen;
  kind = k.kind;
  fingerprint = k.fingerprint;
  count = k.count;
}

IsKept-trans :
    (events : List LoopHealthEvent) (e : LoopHealthEvent) (k : LoopHealthEvent)
    → k.kind ≡ e.kind
    → k.fingerprint ≡ e.fingerprint
    → e.occurrence_count ≤ k.occurrence_count
    → IsKept events k
    → IsKept events e
IsKept-trans events e k kind fingerprint count kept = record {
  event = kept.event;
  seen = kept.seen;
  kind = kept.kind ∙ kind;
  fingerprint = kept.fingerprint ∙ fingerprint;
  count = let more = kept.count in ground arith;
}

merged-IsKept :
    (prior event : LoopHealthEvent) (events : List LoopHealthEvent)
    → same_key prior event ≡ true
    → IsKept (merged prior event ∷ events) prior
unfolding same_key merged
merged-IsKept prior event events h = record {
  event = merged prior event;
  seen = here refl;
  kind = ground arith;
  fingerprint = ground arith;
  count = ground arith;
}

merged_new :
    (prior event : LoopHealthEvent) (events : List LoopHealthEvent)
    → event.occurrence_count ≤ 1
    → IsKept (merged prior event ∷ events) event
unfolding merged
merged_new prior event events h = record {
  event = merged prior event;
  seen = here refl;
  kind = refl;
  fingerprint = refl;
  count = ground arith;
}

-- An event that occurs leaves the others in place.
occur-IsKept :
    (event : LoopHealthEvent) (events : List LoopHealthEvent) (x : LoopHealthEvent)
    → In x events
    → IsKept (occur event events) x
unfolding occur
occur-IsKept event [] x m = elim m [ ]
occur-IsKept event (e ∷ events) x m =
    by_test (same_key e event) refl m (occur-IsKept event events x)
  where
    by_test :
        (b : Bool)
        → same_key e event ≡ b
        → In x (e ∷ events)
        → (In x events → IsKept (occur event events) x)
        → IsKept (if b then merged e event ∷ events else e ∷ occur event events) x
    by_test true h (here same) ih =
        subst (IsKept (merged e event ∷ events)) (sym same) (merged-IsKept e event events h)
    by_test true h (there q) ih = IsKept-there (merged e event) events x (IsKept-here events x q)
    by_test false h (here same) ih = IsKept-here (e ∷ occur event events) x (here same)
    by_test false h (there q) ih = IsKept-there e (occur event events) x (ih q)

occur_new :
    (event : LoopHealthEvent) (events : List LoopHealthEvent)
    → event.occurrence_count ≤ 1
    → IsKept (occur event events) event
unfolding occur
occur_new event [] h = IsKept-here (event ∷ []) event (here refl)
occur_new event (e ∷ events) h = by_test (same_key e event) (occur_new event events h)
  where
    by_test :
        (b : Bool)
        → IsKept (occur event events) event
        → IsKept (if b then merged e event ∷ events else e ∷ occur event events) event
    by_test true ih = merged_new e event events h
    by_test false ih = IsKept-there e (occur event events) event ih

occur_all-IsKept :
    (later events : List LoopHealthEvent) (x : LoopHealthEvent)
    → IsKept events x
    → IsKept (occur_all later events) x
unfolding occur_all
occur_all-IsKept [] events x k = k
occur_all-IsKept (event ∷ later) events x k =
    let next = occur-IsKept event events k.event k.seen in
    occur_all-IsKept later (occur event events) x
      (IsKept-trans (occur event events) x k.event k.kind k.fingerprint k.count next)

occur_all_new :
    (later events : List LoopHealthEvent) (x : LoopHealthEvent)
    → In x later
    → x.occurrence_count ≤ 1
    → IsKept (occur_all later events) x
unfolding occur_all
occur_all_new [] events x m h = elim m [ ]
occur_all_new (event ∷ later) events x (here same) h =
    let count : event.occurrence_count ≤ 1 =
      subst (λ (e : LoopHealthEvent). e.occurrence_count ≤ 1) same h in
    occur_all-IsKept later (occur event events) x
      (subst (IsKept (occur event events)) (sym same) (occur_new event events count))
occur_all_new (event ∷ later) events x (there m) h = occur_all_new later (occur event events) x m h

-- What occurs is counted once.
abbrev Once : List LoopHealthEvent → Type 0
Once events = (x : LoopHealthEvent) → In x events → x.occurrence_count ≤ 1

append-Once : (a b : List LoopHealthEvent) → Once a → Once b → Once (a ++ b)
append-Once [] b p q x m = q x m
append-Once (e ∷ a) b p q x (here same) = p x (here same)
append-Once (e ∷ a) b p q x (there m) = append-Once a b (λ y n. p y (there n)) q x m

module _ (sha256 : String → String) where
  map-Once :
      (conflicts : List ConflictKind) (work : Option ℕ)
      → Once (map (stale_event sha256 work) conflicts)
  unfolding stale_event new_event
  map-Once [] work x m = elim m [ ]
  map-Once (c ∷ conflicts) work x (here same) = ground arith
  map-Once (c ∷ conflicts) work x (there m) = map-Once conflicts work x m

  when-Once :
      (b : Bool) (e : LoopHealthEvent) → e.occurrence_count ≤ 1 → Once (if b then e ∷ [] else [])
  when-Once true e h x (here same) = ground arith
  when-Once true e h x (there m) = elim m [ ]
  when-Once false e h x m = elim m [ ]

  occurred-Once :
      (conflicts : List ConflictKind) (disposition : RunDisposition) (duplicate : Bool)
      (work : Option ℕ)
      → Once (occurred sha256 conflicts disposition duplicate work)
  unfolding occurred duplicate_event manual_event new_event
  occurred-Once conflicts disposition duplicate work =
      append-Once _ _
        (append-Once _ _ (when-Once duplicate (duplicate_event sha256 work) (ground arith))
          (map-Once (keep is_stale conflicts) work))
        (when-Once (is_intervention disposition) (manual_event sha256 work conflicts)
          (ground arith))

  sorted-IsKept :
      (events : List LoopHealthEvent) (x : LoopHealthEvent)
      → IsKept events x
      → IsKept (sort_by key_le events) x
  sorted-IsKept events x k = record {
    event = k.event;
    seen = In-sort_by key_le events k.seen;
    kind = k.kind;
    fingerprint = k.fingerprint;
    count = k.count;
  }

  -- What a decision keeps of the health events: each of the events before it, in its canonical form, that is the last of
  -- its kind and fingerprint is there after it, under its kind and fingerprint and seen at least as often, and
  -- so is each event that occurred in the decision. Of an event before that one with the same kind and
  -- fingerprint nothing is said. The canonical form has the durable identities of the fingerprint and of the
  -- source references.
  pub advance_health-IsKept :
      (previous : List LoopHealthEvent) (conflicts : List ConflictKind)
      (disposition : RunDisposition)
      → (duplicate_suppressed : Bool) (work : Option ℕ) (after : List LoopHealthEvent)
      → advance_health sha256 previous conflicts disposition duplicate_suppressed work ≡ some after
      → (events : List LoopHealthEvent) × (canonicalized sha256 previous ≡ some events)
        × Canonical sha256 previous events
        × ((e : LoopHealthEvent) → IsLatest e events → IsKept after e)
        × ((e : LoopHealthEvent)
            → In e (occurred sha256 conflicts disposition duplicate_suppressed work)
            → IsKept after e)
  unfolding advance_health
  advance_health-IsKept previous conflicts disposition duplicate work after h =
      elim (Option-cases (canonicalized sha256 previous)) [
        | inl invalid ↦ absurd (ground arith)
        | inr (events, e) ↦
            let new = occurred sha256 conflicts disposition duplicate work in
            let same : sort_by key_le (occur_all new (indexed [] events)) ≡ after = ground arith in
            (
              events,
              e,
              canonicalized-Canonical sha256 previous events e,
              λ x m.
                  subst (λ l. IsKept l x) same
                    (sorted-IsKept _ x (
                      occur_all-IsKept new (indexed [] events) x
                        (IsKept-here (indexed [] events) x (indexed-latest x [] events m)))),
              λ x m.
                  subst (λ l. IsKept l x) same
                    (sorted-IsKept _ x (
                      occur_all_new new (indexed [] events) x m
                        (occurred-Once conflicts disposition duplicate work x m))),
            )
      ]
