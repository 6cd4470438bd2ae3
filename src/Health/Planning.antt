-- ===== src/Health/Planning.antt =====
-- What the planned improvements are.
use mathlib.Core.Path.{subst}
use loop_engineering.Prelude.{
  ℕ, zero, suc, ◌≤◌, ◌<◌, String, Bool, true, false, ◌≡◌, refl, ◌⊎◌, inl, inr, List, [], ◌∷◌, arith,
  map, ap,
}
use loop_engineering.Prelude.{
  string_eq, if◌then◌else◌, contains, ltb, length, sort_by, sort_by-In, In-sort_by, In, here, there,
}
use loop_engineering.Models.{LoopHealthEvent, ExistingImprovementIssue, ImprovementCandidate}
use loop_engineering.Health.{
  ImprovementState, threshold, suppressed_keys, rank_le, improvement_key, candidate, plan_from,
  plan_improvements,
}

abbrev pub keys_of : List ImprovementCandidate → List String
keys_of candidates = map (λ (c : ImprovementCandidate). c.improvement_key) candidates

-- No key stands twice.
abbrev pub Distinct : List String → Type 0
Distinct [] = Unit
Distinct (k ∷ ks) = (contains ks k ≡ false) × Distinct ks

module _ (sha256 : String → String) (digest : ImprovementState → String)
    (date_after : ℕ → String) where
  abbrev planned : List LoopHealthEvent → ℕ → List String → List ImprovementCandidate
  planned = plan_from sha256 digest date_after

  abbrev pub key_of : LoopHealthEvent → String
  key_of = improvement_key sha256 digest date_after

  plan_from-length :
      (events : List LoopHealthEvent) (room : ℕ) (suppressed : List String)
      → length (planned events room suppressed) ≤ room
  unfolding plan_from
  plan_from-length events zero suppressed = ground arith
  plan_from-length [] (suc room) suppressed = ground arith
  plan_from-length (e ∷ events) (suc room) suppressed =
      let passed = plan_from-length events (suc room) suppressed in
      let added = plan_from-length events room (key_of e ∷ suppressed) in ground arith

  plan_from-fresh :
      (events : List LoopHealthEvent) (room : ℕ) (suppressed : List String) (key : String)
      → contains suppressed key ≡ true
      → contains (keys_of (planned events room suppressed)) key ≡ false
  unfolding plan_from candidate
  plan_from-fresh events zero suppressed key h = refl
  plan_from-fresh [] (suc room) suppressed key h = refl
  plan_from-fresh (e ∷ events) (suc room) suppressed key h =
      let passed = plan_from-fresh events (suc room) suppressed key h in
      let added = plan_from-fresh events room (key_of e ∷ suppressed) key in ground arith

  plan_from-Distinct :
      (events : List LoopHealthEvent) (room : ℕ) (suppressed : List String)
      → Distinct (keys_of (planned events room suppressed))
  unfolding plan_from candidate
  plan_from-Distinct events zero suppressed = tt
  plan_from-Distinct [] (suc room) suppressed = tt
  plan_from-Distinct (e ∷ events) (suc room) suppressed =
      let passed = plan_from-Distinct events (suc room) suppressed in
      let added = plan_from-Distinct events room (key_of e ∷ suppressed) in
      let fresh = plan_from-fresh events room (key_of e ∷ suppressed) (key_of e) in ground arith

  -- The event that a candidate is for.
  abbrev pub IsFor : List LoopHealthEvent → ImprovementCandidate → Type 0
  IsFor events c =
      (e : LoopHealthEvent) × In e events
      × (c ≡ candidate sha256 digest date_after e)
      × (threshold e.kind ≤ e.occurrence_count)

  later_IsFor :
      (e : LoopHealthEvent) (events : List LoopHealthEvent) {c : ImprovementCandidate}
      → IsFor events c
      → IsFor (e ∷ events) c
  later_IsFor e events (f, m, same, enough) = (f, there m, same, enough)

  In-plan :
      (b1 b2 : Bool) (x : ImprovementCandidate) (skip take : List ImprovementCandidate)
      {c : ImprovementCandidate}
      → In c (if b1 then skip else if b2 then skip else x ∷ take)
      → In c skip ⊎ ((b1 ≡ false) × ((c ≡ x) ⊎ In c take))
  In-plan true b2 x skip take m = inl m
  In-plan false true x skip take m = inl m
  In-plan false false x skip take (here e) = inr (refl, inl e)
  In-plan false false x skip take (there m) = inr (refl, inr m)

  plan_from-IsFor :
      (events : List LoopHealthEvent) (room : ℕ) (suppressed : List String)
      {c : ImprovementCandidate}
      → In c (planned events room suppressed)
      → IsFor events c
  unfolding plan_from
  plan_from-IsFor events zero suppressed m = elim m [ ]
  plan_from-IsFor [] (suc room) suppressed m = elim m [ ]
  plan_from-IsFor (e ∷ events) (suc room) suppressed {c} m =
      elim (In-plan (ltb e.occurrence_count (threshold e.kind)) (contains suppressed (key_of e))
        (candidate sha256 digest date_after e) (planned events (suc room) suppressed)
        (planned events room (key_of e ∷ suppressed)) m) [
          | inl passed ↦ later_IsFor e events (plan_from-IsFor events (suc room) suppressed passed)
          | inr (enough, inl same) ↦ (e, here refl, same, ground arith)
          | inr (enough, inr added) ↦
              later_IsFor e events (plan_from-IsFor events room (key_of e ∷ suppressed) added)
        ]

  -- A key that was suppressed before, or is planned now.
  abbrev pub IsCovered : List String → List ImprovementCandidate → String → Type 0
  IsCovered suppressed plan key =
      (contains suppressed key ≡ true) ⊎ (contains (keys_of plan) key ≡ true)

  plan_from-IsCovered :
      (events : List LoopHealthEvent) (room : ℕ) (suppressed : List String) (e : LoopHealthEvent)
      → length (planned events room suppressed) < room
      → In e events
      → threshold e.kind ≤ e.occurrence_count
      → IsCovered suppressed (planned events room suppressed) (key_of e)
  unfolding plan_from candidate
  plan_from-IsCovered events zero suppressed e few m enough = absurd (ground arith)
  plan_from-IsCovered [] (suc room) suppressed e few m enough = elim m [ ]
  plan_from-IsCovered (f ∷ events) (suc room) suppressed e few (here same) enough =
      let key : key_of e ≡ key_of f = ap key_of same in
      let count : threshold f.kind ≤ f.occurrence_count =
        subst (λ (g : LoopHealthEvent). threshold g.kind ≤ g.occurrence_count) same enough in
      ground arith
  plan_from-IsCovered (f ∷ events) (suc room) suppressed e few (there m) enough =
      let passed = λ (small : length (planned events (suc room) suppressed) < suc room).
        plan_from-IsCovered events (suc room) suppressed e small m enough in
      let added = λ (small : length (planned events room (key_of f ∷ suppressed)) < room).
        plan_from-IsCovered events room (key_of f ∷ suppressed) e small m enough in
      ground arith

  -- What a plan promises of the events, the suppressed keys and the limit.
  pub record IsPlan (events : List LoopHealthEvent) (suppressed : List String) (limit : ℕ)
      (plan : List ImprovementCandidate) : Type 0 where
    pub bounded : length plan ≤ limit
    pub distinct : Distinct (keys_of plan)
    pub fresh :
        (key : String) → contains suppressed key ≡ true → contains (keys_of plan) key ≡ false
    pub sourced : (c : ImprovementCandidate) → In c plan → IsFor events c
    pub complete :
        length plan < limit
        → (e : LoopHealthEvent) → In e events
        → threshold e.kind ≤ e.occurrence_count
        → IsCovered suppressed plan (key_of e)

  -- The plan has at most the given number of candidates, no two with one key and none with a suppressed
  -- key; each is for an observed event that reached its threshold; and a plan short of the limit leaves
  -- no such event out, unless its key is suppressed or planned already.
  pub plan_improvements-IsPlan :
      (events : List LoopHealthEvent) (issues : List ExistingImprovementIssue)
      (checkpoint_keys : List String) (limit : ℕ)
      → IsPlan events
          (suppressed_keys issues checkpoint_keys)
          limit
          (plan_improvements sha256 digest date_after events issues checkpoint_keys limit)
  unfolding plan_improvements
  plan_improvements-IsPlan events issues checkpoint_keys limit =
      let suppressed = suppressed_keys issues checkpoint_keys in
      let sorted = sort_by rank_le events in
      record {
        bounded = plan_from-length sorted limit suppressed;
        distinct = plan_from-Distinct sorted limit suppressed;
        fresh = plan_from-fresh sorted limit suppressed;
        sourced = λ c m.
            let (e, seen, same, enough) = plan_from-IsFor sorted limit suppressed m in
            (e, sort_by-In rank_le events seen, same, enough);
        complete = λ few e m enough.
            plan_from-IsCovered sorted limit suppressed e few (In-sort_by rank_le events m) enough;
      }
