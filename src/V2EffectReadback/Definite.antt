-- ===== src/V2EffectReadback/Definite.antt =====
-- When a read-back is definite.
use loop_engineering.Prelude.{
  String, true, false, ◌≡◌, ◌≢◌, refl, ◌↔◌, ◌⊎◌, inl, inr, Option, none, some, [], ◌∷◌, arith,
}
use loop_engineering.Prelude.{string_eq, option_eq, Option-cases}
use loop_engineering.WorkState.{EffectAttempt}
use loop_engineering.WriteGate.{Mapping, keys}
use loop_engineering.V2Resume.{EffectReadbackStatus, confirmed, no_effect, unknown}
use loop_engineering.V2EffectReadback.{
  ReadbackPorts, valid_repository, pairs, target_suffix, same_items, same_set, at, compare_scalar,
  observed_head, push_status, read_push, by_kind, caught, by_pairs, readback,
}

module _ (ports : ReadbackPorts) (repository : String) where
  -- An effect in flight, whose expectations are dicts that say something and differ.
  pub record IsReadable (attempt : EffectAttempt) (before after : Mapping) : Type 0 where
    pub at_repository : valid_repository repository ≡ true
    pub in_flight : (attempt.status ≡ "INTENT_RECORDED") ⊎ (attempt.status ≡ "UNCERTAIN")
    pub precondition : pairs attempt.expected_preconditions ≡ some before
    pub effect : pairs attempt.expected_effect ≡ some after
    pub precondition_given : before ≢ []
    pub effect_given : after ≢ []
    pub changes : same_items before after ≡ false

  readable :
      (attempt : EffectAttempt) (s : EffectReadbackStatus)
      → s ≢ unknown
      → readback ports repository attempt ≡ s
      → (before : Mapping) × (after : Mapping) × IsReadable attempt before after
        × (caught ports repository
              (by_kind ports repository attempt.kind attempt.target_identity before after)
            ≡ s)
  unfolding readback by_pairs
  readable attempt s n h = elim (Option-cases (pairs attempt.expected_preconditions)) [
    | inl bad ↦ absurd (ground arith)
    | inr (before, p) ↦ elim (Option-cases (pairs attempt.expected_effect)) [
      | inl bad ↦ absurd (ground arith)
      | inr (after, q) ↦ (
        before,
        after,
        record {
          at_repository = ground arith;
          in_flight = ground arith;
          precondition = p;
          effect = q;
          precondition_given = λ e. ground arith;
          effect_given = λ e. ground arith;
          changes = ground arith;
        },
        ground arith,
      )
    ]
  ]

  reads :
      (attempt : EffectAttempt) {before after : Mapping}
      → IsReadable attempt before after
      → readback ports repository attempt
        ≡ caught ports repository
            (by_kind ports repository attempt.kind attempt.target_identity before after)
  unfolding readback by_pairs
  reads attempt r = rw r.precondition (
      rw r.effect (
        ground
          (arith, r.at_repository, r.in_flight, r.precondition_given, r.effect_given, r.changes)))

  -- The kinds that are read back.
  abbrev pub HasKind : String → Type 0
  HasKind kind = (kind ≡ "PUSH") ⊎ (kind ≡ "READY") ⊎ (kind ≡ "MERGE") ⊎ (kind ≡ "ISSUE_UPDATE")

  kind_known :
      (kind target : String) (before after : Mapping)
      → caught ports repository (by_kind ports repository kind target before after) ≢ unknown
      → HasKind kind
  unfolding by_kind caught
  kind_known kind target before after n = ground arith

  -- A read-back other than UNKNOWN is of an effect in flight, of one of four kinds, with expectations
  -- that are not empty and differ, at a well-formed repository.
  pub readback_definite :
      (attempt : EffectAttempt)
      → readback ports repository attempt ≢ unknown
      → (before : Mapping) × (after : Mapping) × IsReadable attempt before after
        × HasKind attempt.kind
  readback_definite attempt n =
      let (before, after, r, e) = readable attempt (readback ports repository attempt) n refl in
      (
        before,
        after,
        r,
        kind_known attempt.kind attempt.target_identity before after (λ u. n (ground arith)),
      )

  -- A branch to look at, and the one head on either side.
  pub record IsPush (attempt : EffectAttempt) (before after : Mapping) (branch : String)
      : Type 0 where
    pub read : IsReadable attempt before after
    pub target : target_suffix attempt.target_identity "branch" ≡ some branch
    pub head_before : same_set (keys before) ("head" ∷ []) ≡ true
    pub head_after : same_set (keys after) ("head" ∷ []) ≡ true

  -- What a status says of the head that was seen.
  abbrev pub Seen : EffectReadbackStatus → String → String → String → Type 0
  Seen confirmed head before after = head ≡ after
  Seen no_effect head before after = (head ≡ before) × (head ≢ after)
  Seen unknown head before after = ⊥

  abbrev pub IsPushRead : EffectReadbackStatus → EffectAttempt → Type 0
  IsPushRead s attempt =
      (before : Mapping) × (after : Mapping) × (branch : String) × (head : String) × IsPush attempt
        before after branch
      × (observed_head ports repository branch ≡ some (some head))
      × Seen s head (at "head" before) (at "head" after)

  scalar-Seen :
      (observed : Option String) (before after : String) (s : EffectReadbackStatus)
      → s ≢ unknown
      → compare_scalar observed before after ≡ s
      → (head : String) × (observed ≡ some head) × Seen s head before after
  unfolding compare_scalar
  scalar-Seen none before after s n h = absurd (ground arith)
  scalar-Seen (some head) before after confirmed n h = (head, refl, ground arith)
  scalar-Seen (some head) before after no_effect n h =
      (head, refl, (ground arith, λ e. ground arith))
  scalar-Seen (some head) before after unknown n h = absurd (n refl)

  Seen-scalar :
      (head before after : String) (s : EffectReadbackStatus)
      → Seen s head before after
      → compare_scalar (some head) before after ≡ s
  unfolding compare_scalar
  Seen-scalar head before after confirmed h = ground arith
  Seen-scalar head before after no_effect h = ground arith
  Seen-scalar head before after unknown h = absurd h

  push_read :
      (attempt : EffectAttempt) (s : EffectReadbackStatus) (before after : Mapping)
      → s ≢ unknown
      → IsReadable attempt before after
      → caught ports repository (read_push ports repository attempt.target_identity before after)
        ≡ s
      → IsPushRead s attempt
  unfolding read_push push_status caught
  push_read attempt s before after n r h =
      elim (Option-cases (target_suffix attempt.target_identity "branch")) [
        | inl missing ↦ absurd (ground arith)
        | inr (branch, e) ↦ elim (Option-cases (observed_head ports repository branch)) [
          | inl failed ↦ absurd (ground arith)
          | inr (observed, seen) ↦
              let (head, same, found) =
                scalar-Seen observed (at "head" before) (at "head" after) s n (ground arith) in
              (
                before,
                after,
                branch,
                head,
                record {
                  read = r;
                  target = e;
                  head_before = ground arith;
                  head_after = ground arith;
                },
                ground arith,
                found,
              )
        ]
      ]

  pushed :
      (attempt : EffectAttempt) (s : EffectReadbackStatus) {before after : Mapping}
      {branch head : String}
      → IsPush attempt before after branch
      → observed_head ports repository branch ≡ some (some head)
      → Seen s head (at "head" before) (at "head" after)
      → caught ports repository (read_push ports repository attempt.target_identity before after)
        ≡ s
  unfolding read_push push_status caught
  pushed attempt s {before} {after} {branch} {head} push seen found =
      let scalar = Seen-scalar head (at "head" before) (at "head" after) s found in
      rw push.target (ground (arith, seen, scalar, push.head_before, push.head_after))

  read_pushed :
      (attempt : EffectAttempt) (s : EffectReadbackStatus)
      → attempt.kind ≡ "PUSH"
      → IsPushRead s attempt
      → readback ports repository attempt ≡ s
  unfolding by_kind
  read_pushed attempt s kind (before, after, branch, head, push, seen, found) =
      ground (arith, kind, reads attempt push.read, pushed attempt s push seen found)

  -- A PUSH is read back as CONFIRMED exactly when the head of its branch is the expected one, and as
  -- NO_EFFECT exactly when it is still the one before; either only of an effect in flight with two
  -- well-formed heads.
  pub push_iff :
      (attempt : EffectAttempt) (s : EffectReadbackStatus)
      → attempt.kind ≡ "PUSH"
      → s ≢ unknown
      → (readback ports repository attempt ≡ s) ↔ IsPushRead s attempt
  unfolding by_kind
  push_iff attempt s kind n = (
    λ h.
        let (before, after, r, e) = readable attempt s n h in
        push_read attempt s before after n r (ground arith),
    read_pushed attempt s kind,
  )
