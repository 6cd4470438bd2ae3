-- ===== src/V2Resume/Outcomes.antt =====
-- What `resume` records of the pending effects.
use mathlib.Core.Path.{subst}
use loop_engineering.Prelude.{
  String, Bool, true, false, ◌≡◌, ◌≢◌, refl, ◌⊎◌, inl, inr, Option, none, some, List, [], ◌∷◌,
  arith, ◌∙◌, ap, map,
}
use loop_engineering.Prelude.{string_eq, option_eq, nat_eq, In, here, there, All, if◌then◌else◌}
use loop_engineering.WorkState.{
  WorkRecord, WorkCheckpoint, WorkTaskPacket, EffectAttempt, RecoveredWork,
}
use loop_engineering.V2Resume.{
  V2ResumeStatus, finalize_required, blocked, waiting, reconcile_required, EffectReadbackStatus,
  confirmed, no_effect, unknown, WorkDefinitionStatus, ready, dependency_pending,
  closed_before_completion, acceptance_criteria_missing, unavailable, completed, ResumePorts,
  ResumeAction, upsert_work, record_effect_outcome, Resumed, outcome_text, outcome, go_on, settle,
  settle_work, define_work, resume_recovered, by_parts, resume_from, resume,
}
use loop_engineering.V2Resume.Recorded.{Records, outcome_text-Records, Settles, definite-Settles}

-- Each action is the outcome of an attempt of the list.
abbrev pub IsOutcomeOf :
    (EffectAttempt → EffectReadbackStatus) → List EffectAttempt → ResumeAction → Type 0
IsOutcomeOf readback attempts action =
    (a : EffectAttempt) × In a attempts × (action ≡ outcome readback a)

go_on-In :
    (s : EffectReadbackStatus) (action : ResumeAction) (rest : List ResumeAction × Bool)
    {x : ResumeAction}
    → In x (go_on s action rest).0
    → (x ≡ action) ⊎ In x rest.0
unfolding go_on
go_on-In unknown action rest (here e) = inl e
go_on-In unknown action rest (there m) = elim m [ ]
go_on-In confirmed action rest (here e) = inl e
go_on-In confirmed action rest (there m) = inr m
go_on-In no_effect action rest (here e) = inl e
go_on-In no_effect action rest (there m) = inr m

module _ (readback : EffectAttempt → EffectReadbackStatus) where
  pub settle-outcome :
      (attempts : List EffectAttempt) {action : ResumeAction}
      → In action (settle readback attempts).0
      → IsOutcomeOf readback attempts action
  unfolding settle
  settle-outcome [] m = elim m [ ]
  settle-outcome (a ∷ rest) m =
      elim (go_on-In (readback a) (outcome readback a) (settle readback rest) m) [
        | inl e ↦ (a, here refl, e)
        | inr later ↦ let (b, seen, e) = settle-outcome rest later in (b, there seen, e)
      ]

  -- A loop that ran to its end has recorded a definite outcome of every attempt, in order.
  settle_done :
      (attempts : List EffectAttempt)
      → (settle readback attempts).1 ≡ true
      → ((settle readback attempts).0 ≡ map (outcome readback) attempts)
        × All (λ a. readback a ≢ unknown) attempts
  unfolding settle
  settle_done [] h = (refl, tt)
  settle_done (a ∷ rest) h = by_status (readback a) refl h (settle_done rest)
    where
      by_status :
          (s : EffectReadbackStatus)
          → readback a ≡ s
          → (go_on s (outcome readback a) (settle readback rest)).1 ≡ true
          → ((settle readback rest).1 ≡ true
              → ((settle readback rest).0 ≡ map (outcome readback) rest)
                × All (λ b. readback b ≢ unknown) rest)
          → ((go_on s (outcome readback a) (settle readback rest)).0
              ≡ map (outcome readback) (a ∷ rest))
            × All (λ b. readback b ≢ unknown) (a ∷ rest)
      by_status unknown e done ih = absurd (ground arith)
      by_status confirmed e done ih =
          (ap (λ l. outcome readback a ∷ l) (ih done).0, (λ q. cc, (ih done).1))
      by_status no_effect e done ih =
          (ap (λ l. outcome readback a ∷ l) (ih done).0, (λ q. cc, (ih done).1))

module _ (ports : ResumePorts) where
  -- What a run has written for a recovered work: nothing, or the synchronised work and the outcomes of
  -- the loop; and a packet is to be finalized only after a loop that ran to its end.
  record Ends (r : RecoveredWork) (out : Resumed) : Type 0 where
    written :
        (out.1 ≡ [])
        ⊎ ((w : WorkRecord) × (out.1 ≡ upsert_work w ∷ (settle ports.readback r.pending_effects).0))
    finalizes :
        out.0.status ≡ finalize_required
        → (w : WorkRecord) × ((ports.synchronize r.work).synchronized ≡ some w)
          × (out.1 ≡ upsert_work w ∷ (settle ports.readback r.pending_effects).0)
          × ((settle ports.readback r.pending_effects).1 ≡ true)

  module _ (r : RecoveredWork) where
    silent-Ends :
        (status : V2ResumeStatus) (detail : String)
        → status ≢ finalize_required
        → Ends r (record { status = status; detail = detail; recovered = some r }, [])
    silent-Ends status detail n = record { written = inl refl; finalizes = λ h. absurd (n h) }

    blocked-Ends :
        (detail : String)
        → Ends r (record { status = blocked; detail = detail; recovered = some r }, [])
    blocked-Ends detail = silent-Ends blocked detail (λ h. ground arith)

    reconcile-Ends :
        (detail : String)
        → Ends r (record { status = reconcile_required; detail = detail; recovered = some r }, [])
    reconcile-Ends detail = silent-Ends reconcile_required detail (λ h. ground arith)

    if_Ends : (b : Bool) {x y : Resumed} → Ends r x → Ends r y → Ends r (if b then x else y)
    if_Ends true ex ey = ex
    if_Ends false ex ey = ey

    module _ (p : WorkTaskPacket) (c : WorkCheckpoint) where
      settle_work-actions :
          (s : WorkDefinitionStatus) (w : WorkRecord)
          → (settle_work ports r p c s w).1
            ≡ upsert_work w ∷ (settle ports.readback r.pending_effects).0
      unfolding settle_work
      settle_work-actions s w = ground arith

      settle_work-finalize :
          (s : WorkDefinitionStatus) (w : WorkRecord)
          → (settle_work ports r p c s w).0.status ≡ finalize_required
          → (settle ports.readback r.pending_effects).1 ≡ true
      unfolding settle_work
      settle_work-finalize s w h = ground arith

      settle_work-Ends :
          (s : WorkDefinitionStatus) (w : WorkRecord)
          → (ports.synchronize r.work).synchronized ≡ some w
          → Ends r (settle_work ports r p c s w)
      settle_work-Ends s w from = record {
        written = inr (w, settle_work-actions s w);
        finalizes = λ h. (w, from, settle_work-actions s w, settle_work-finalize s w h);
      }

      define_work-Ends :
          (s : WorkDefinitionStatus) (o : Option WorkRecord)
          → (ports.synchronize r.work).synchronized ≡ o
          → Ends r (define_work ports r p c s o)
      unfolding define_work
      define_work-Ends ready (some w) from =
          if_Ends _ (blocked-Ends "WORK_DEFINITION_CONFLICT") (settle_work-Ends ready w from)
      define_work-Ends completed (some w) from =
          if_Ends _ (blocked-Ends "WORK_DEFINITION_CONFLICT") (settle_work-Ends completed w from)
      define_work-Ends dependency_pending o from =
          silent-Ends waiting "DEPENDENCY_PENDING" (λ h. ground arith)
      define_work-Ends closed_before_completion o from =
          blocked-Ends "WORK_CLOSED_BEFORE_COMPLETION"
      define_work-Ends acceptance_criteria_missing o from =
          blocked-Ends "ACCEPTANCE_CRITERIA_DIGEST_MISSING"
      define_work-Ends unavailable o from = blocked-Ends "WORK_DEFINITION_UNAVAILABLE"
      define_work-Ends ready none from = blocked-Ends "WORK_DEFINITION_UNAVAILABLE"
      define_work-Ends completed none from = blocked-Ends "WORK_DEFINITION_UNAVAILABLE"

      resume_recovered-Ends : Ends r (resume_recovered ports r p c)
      unfolding resume_recovered
      resume_recovered-Ends = if_Ends _ (blocked-Ends "WORK_RECOVERY_MISSING") (
          if_Ends _ (reconcile-Ends "EFFECT_PACKET_MISMATCH") (
            if_Ends _ (reconcile-Ends "EFFECT_PACKET_STATE_MISMATCH") (
              define_work-Ends (ports.synchronize r.work).status
                (ports.synchronize r.work).synchronized refl)))

    by_parts-Ends :
        (op : Option WorkTaskPacket) (oc : Option WorkCheckpoint) → Ends r (by_parts ports r op oc)
    unfolding by_parts
    by_parts-Ends (some p) (some c) = resume_recovered-Ends p c
    by_parts-Ends (some p) none = blocked-Ends "WORK_RECOVERY_MISSING"
    by_parts-Ends none oc = blocked-Ends "WORK_RECOVERY_MISSING"

  -- The attempt whose outcome an action records.
  abbrev pub IsReadBack : List EffectAttempt → String → String → Type 0
  IsReadBack attempts key status =
      (a : EffectAttempt) × In a attempts × (a.idempotency_key ≡ key) × Records ports a status

  loop_action :
      (attempts : List EffectAttempt) (w : WorkRecord) (key status : String)
      → In (record_effect_outcome key status) (upsert_work w ∷ (settle ports.readback attempts).0)
      → IsReadBack attempts key status
  loop_action attempts w key status (here e) = absurd (ground arith)
  loop_action attempts w key status (there m) =
      let (a, m', e) = settle-outcome ports.readback attempts m in
      let named : outcome_text (ports.readback a) ≡ status = ground arith in
      (a, m', ground arith, subst (Records ports a) named (outcome_text-Records ports a))

  recorded :
      (r : RecoveredWork) (key status : String) {out : Resumed}
      → Ends r out
      → In (record_effect_outcome key status) out.1
      → IsReadBack r.pending_effects key status
  recorded r key status e m = elim e.written [
    | inl nothing ↦ no_action (subst (In (record_effect_outcome key status)) nothing m)
    | inr (w, both) ↦
        loop_action r.pending_effects w key status
          (subst (In (record_effect_outcome key status)) both m)
  ]
    where
      no_action : In (record_effect_outcome key status) [] → IsReadBack r.pending_effects key status
      no_action q = elim q [ ]

  -- An outcome that `resume` records belongs to a pending effect of the recovered work, under its key,
  -- and its status is CONFIRMED where that effect is read back as confirmed, NO_EFFECT where it is read back
  -- as without effect, and UNCERTAIN where it is unknown.
  pub outcome-IsReadBack :
      (work_identity key status : String)
      → In (record_effect_outcome key status) (resume ports work_identity).1
      → (r : RecoveredWork) × (ports.recover work_identity ≡ some r)
        × IsReadBack r.pending_effects key status
  unfolding resume resume_from
  outcome-IsReadBack id key status m = by_found (ports.recover id) refl m
    where
      by_found :
          (o : Option RecoveredWork)
          → ports.recover id ≡ o
          → In (record_effect_outcome key status) (resume_from ports o).1
          → (r : RecoveredWork) × (ports.recover id ≡ some r)
            × IsReadBack r.pending_effects key status
      by_found none e m = elim m [ ]
      by_found (some r) e m =
          (r, e, recorded r key status (by_parts-Ends r r.task_packet r.checkpoint) m)

  -- When a packet is to be finalized, what was written is the work that `synchronize` answered for the
  -- recovered work and then, in order, a definite outcome of every pending effect: CONFIRMED for one that
  -- was read back as confirmed, and NO_EFFECT for one that was read back as without effect.
  pub finalize_settled :
      (work_identity : String)
      → (resume ports work_identity).0.status ≡ finalize_required
      → (r : RecoveredWork) × (w : WorkRecord) × (outcomes : List ResumeAction) × (ports.recover
            work_identity
          ≡ some r)
        × ((ports.synchronize r.work).synchronized ≡ some w)
        × ((resume ports work_identity).1 ≡ upsert_work w ∷ outcomes)
        × Settles ports r.pending_effects outcomes
  unfolding resume resume_from
  finalize_settled id h = by_found (ports.recover id) refl h
    where
      by_found :
          (o : Option RecoveredWork)
          → ports.recover id ≡ o
          → (resume_from ports o).0.status ≡ finalize_required
          → (r : RecoveredWork) × (w : WorkRecord) × (outcomes : List ResumeAction) × (ports.recover
                id
              ≡ some r)
            × ((ports.synchronize r.work).synchronized ≡ some w)
            × ((resume_from ports o).1 ≡ upsert_work w ∷ outcomes)
            × Settles ports r.pending_effects outcomes
      by_found none e h = absurd (ground arith)
      by_found (some r) e h =
          let (w, from, wrote, ended) = (by_parts-Ends r r.task_packet r.checkpoint).finalizes h in
          let (same, definite) = settle_done ports.readback r.pending_effects ended in
          (
            r,
            w,
            map (outcome ports.readback) r.pending_effects,
            e,
            from,
            wrote ∙ ap (λ l. upsert_work w ∷ l) same,
            definite-Settles ports r.pending_effects definite,
          )
