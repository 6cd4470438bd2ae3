-- ===== src/V2Resume/Recorded.antt =====
-- src/loop_engineering/v2_resume.py: the statuses that `resume` records, by what is read back.
use loop_engineering.Prelude.{String, ◌≡◌, ◌≢◌, refl, List, [], ◌∷◌, map}
use loop_engineering.Prelude.{string_eq, option_eq, nat_eq, All}
use loop_engineering.WorkState.{EffectAttempt}
use loop_engineering.V2Resume.{
  EffectReadbackStatus, confirmed, no_effect, unknown, ResumePorts, ResumeAction,
  record_effect_outcome, outcome_text, outcome,
}

module _ (ports : ResumePorts) where
  -- The status that is recorded of an attempt, by what is read back of it.
  pub data Records (a : EffectAttempt) : String → Type 0 where
    seen : ports.readback a ≡ confirmed → Records a "CONFIRMED"
    absent : ports.readback a ≡ no_effect → Records a "NO_EFFECT"
    unclear : ports.readback a ≡ unknown → Records a "UNCERTAIN"

  pub outcome_text-Records : (a : EffectAttempt) → Records a (outcome_text (ports.readback a))
  unfolding outcome_text
  outcome_text-Records a = by_status (ports.readback a) refl
    where
      by_status : (s : EffectReadbackStatus) → ports.readback a ≡ s → Records a (outcome_text s)
      by_status confirmed e = seen e
      by_status no_effect e = absent e
      by_status unknown e = unclear e

  -- What is written of the attempts, in order: of each, that it is confirmed or that it has no effect, as it
  -- is read back.
  pub data Settles : List EffectAttempt → List ResumeAction → Type 0 where
    done : Settles [] []
    one_seen :
        {a : EffectAttempt} {later : List EffectAttempt} {actions : List ResumeAction}
        → ports.readback a ≡ confirmed
        → Settles later actions
        → Settles (a ∷ later) (record_effect_outcome a.idempotency_key "CONFIRMED" ∷ actions)
    one_absent :
        {a : EffectAttempt} {later : List EffectAttempt} {actions : List ResumeAction}
        → ports.readback a ≡ no_effect
        → Settles later actions
        → Settles (a ∷ later) (record_effect_outcome a.idempotency_key "NO_EFFECT" ∷ actions)

  pub definite-Settles :
      (attempts : List EffectAttempt)
      → All (λ a. ports.readback a ≢ unknown) attempts
      → Settles attempts (map (outcome ports.readback) attempts)
  unfolding outcome_text
  definite-Settles [] h = done
  definite-Settles (a ∷ later) h = by_status (ports.readback a) refl (definite-Settles later h.1)
    where
      by_status :
          (s : EffectReadbackStatus)
          → ports.readback a ≡ s
          → Settles later (map (outcome ports.readback) later)
          → Settles (a ∷ later) (
              record_effect_outcome a.idempotency_key (outcome_text s)
              ∷ map (outcome ports.readback) later)
      by_status confirmed e rest = one_seen e rest
      by_status no_effect e rest = one_absent e rest
      by_status unknown e rest = absurd (h.0 e)
