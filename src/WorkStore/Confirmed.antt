-- ===== src/WorkStore/Confirmed.antt =====
-- src/loop_engineering/v2_execution_state.py: the effects of a packet whose one effect was confirmed.
use mathlib.Core.Path.{subst}
use loop_engineering.Prelude.{
  String, ℕ, Bool, true, false, ◌≡◌, sym, inl, inr, some, List, [], ◌∷◌, ◌++◌, arith,
}
use loop_engineering.Prelude.{
  first, Bool-cases, string_eq, nat_eq, option_eq, any, count, keep, All,
}
use loop_engineering.WorkState.{EffectAttempt}
use loop_engineering.WorkStore.{is_unresolved, has_effect}
use loop_engineering.WorkStore.Records.{settle_effects, with_effect_status}
use loop_engineering.WorkStore.Plan.{V2ExecutionPacket}
use loop_engineering.WorkStore.Finalize.{with_status_of, is_terminal_of, is_effect_of}

-- Where a row is found, some row passes what it passes.
pub found-any {ℓ} :
    {A : Type ℓ} (p q : A → Bool) (xs : List A) (x : A)
    → first p xs ≡ some x
    → q x ≡ true
    → any q xs ≡ true
unfolding first any
found-any p q [] x found hit = absurd (ground arith)
found-any p q (y ∷ xs) x found hit = elim (Bool-cases (p y)) [
  | inl hits ↦
      let e : y ≡ x = ground arith in let h = subst (λ o. q o ≡ true) (sym e) hit in ground arith
  | inr miss ↦ let rest = found-any p q xs x (ground arith) hit in ground arith
]

module _ (key work : String) (generation : ℕ) (effect : EffectAttempt)
    (keyed : effect.idempotency_key ≡ key) (own : is_effect_of work generation effect ≡ true)
    (intended : effect.status ≡ "INTENT_RECORDED") where
  abbrev pub confirmed_effects : List EffectAttempt → List EffectAttempt
  confirmed_effects es = settle_effects key "CONFIRMED" (es ++ (effect ∷ []))

  -- The one effect of the generation is the confirmed one.
  pub terminal_one :
      (es : List EffectAttempt)
      → has_effect key es ≡ false
      → All (λ e. is_effect_of work generation e ≡ false) es
      → keep (is_terminal_of work generation) (confirmed_effects es)
        ≡ with_effect_status "CONFIRMED" effect ∷ []
  unfolding keep is_terminal_of settle_effects is_unresolved is_effect_of has_effect any
  terminal_one [] fresh none_own = ground arith
  terminal_one (e ∷ es) fresh none_own =
      let rest = terminal_one es (ground arith) none_own.1 in let other = none_own.0 in ground arith

  pub count_one :
      (p : V2ExecutionPacket)
      → p.work_identity ≡ work
      → p.generation ≡ generation
      → (es : List EffectAttempt) → has_effect key es ≡ false
      → All (λ e. is_effect_of work generation e ≡ false) es
      → count (with_status_of p "CONFIRMED") (confirmed_effects es) ≡ 1
  unfolding count with_status_of settle_effects is_unresolved is_effect_of has_effect any
  count_one p same_work same_generation [] fresh none_own = ground arith
  count_one p same_work same_generation (e ∷ es) fresh none_own =
      let rest = count_one p same_work same_generation es (ground arith) none_own.1 in
      let other = none_own.0 in ground arith
