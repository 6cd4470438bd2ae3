-- ===== src/WorkStore/Growing.antt =====
-- src/loop_engineering/work_state.py: how the table of effects grows, and what stays in it.
use mathlib.Core.Path.{subst}
use loop_engineering.Prelude.{
  ◌≤◌, ◌∙◌, String, Bool, false, ◌≡◌, refl, sym, ap, inl, inr, List, [], ◌∷◌, ◌++◌, arith, ◌&&◌,
}
use loop_engineering.Prelude.{◌==◌, string_eq, count, any, In, here, there, Bool-cases}
use loop_engineering.WorkState.{EffectAttempt}
use loop_engineering.WorkStore.{is_unresolved, has_effect}
use loop_engineering.WorkStore.Records.{settle_effects, with_effect_status}
use loop_engineering.WorkStore.Rows.{count-none, count-append}

abbrev pub of_key : String → EffectAttempt → Bool
of_key key e = e.idempotency_key == key

-- What a statement does to the effects: nothing, a row of a new key, or an outcome.
pub data Grown : List EffectAttempt → List EffectAttempt → Type 0 where
  unchanged : {es : List EffectAttempt} → Grown es es
  added :
      {es : List EffectAttempt} (e : EffectAttempt)
      → has_effect e.idempotency_key es ≡ false
      → Grown es (es ++ (e ∷ []))
  settled :
      {es : List EffectAttempt} (key status : String) → Grown es (settle_effects key status es)

-- The row of an effect that was there: it differs at most in its status, and not at all when the
-- outcome of the effect was known.
pub record Stays (e : EffectAttempt) (effects : List EffectAttempt) : Type 0 where
  pub row : EffectAttempt
  pub seen : In row effects
  pub fields : row ≡ with_effect_status row.status e
  pub final : is_unresolved e ≡ false → row ≡ e

pub In-Stays : (e : EffectAttempt) (es : List EffectAttempt) → In e es → Stays e es
In-Stays e es m = record { row = e; seen = m; fields = refl; final = λ h. refl }

Stays-there : (x e : EffectAttempt) (es : List EffectAttempt) → Stays e es → Stays e (x ∷ es)
Stays-there x e es k = record {
  row = k.row;
  seen = there k.seen;
  fields = k.fields;
  final = k.final;
}

In-append : (xs : List EffectAttempt) (x y : EffectAttempt) → In y xs → In y (xs ++ (x ∷ []))
In-append [] x y m = elim m [ ]
In-append (z ∷ xs) x y (here e) = here e
In-append (z ∷ xs) x y (there m) = there (In-append xs x y m)

settle-Stays :
    (key status : String) (e : EffectAttempt) (es : List EffectAttempt)
    → In e es
    → Stays e (settle_effects key status es)
unfolding settle_effects
settle-Stays key status e [] m = elim m [ ]
settle-Stays key status e (x ∷ es) (there m) =
    let rest = settle-Stays key status e es m in
    elim (Bool-cases (of_key key x && is_unresolved x)) [
      | inl hit ↦
          subst (Stays e) (ground arith)
            (Stays-there (with_effect_status status x) e (settle_effects key status es) rest)
      | inr miss ↦
          subst (Stays e) (ground arith) (Stays-there x e (settle_effects key status es) rest)
    ]
settle-Stays key status e (x ∷ es) (here same) =
    elim (Bool-cases (of_key key x && is_unresolved x)) [
      | inl hit ↦ record {
        row = with_effect_status status x;
        seen =
            subst (In (with_effect_status status x)) (ground arith)
              (In.here {xs = settle_effects key status es} refl);
        fields = ap (with_effect_status status) (sym same);
        final = λ h. absurd (ground arith);
      }
      | inr miss ↦
          subst (Stays e) (ground arith) (In-Stays e (x ∷ settle_effects key status es) (here same))
    ]

Grown-Stays : (e : EffectAttempt) (es fs : List EffectAttempt) → Grown es fs → In e es → Stays e fs
Grown-Stays e es fs unchanged m = In-Stays e es m
Grown-Stays e es fs (added x fresh) m = In-Stays e (es ++ (x ∷ [])) (In-append es x e m)
Grown-Stays e es fs (settled key status) m = settle-Stays key status e es m

pub Stays-trans :
    (e : EffectAttempt) (es fs : List EffectAttempt) → Grown es fs → Stays e es → Stays e fs
Stays-trans e es fs g k =
    let l = Grown-Stays k.row es fs g k.seen in
    let fields = k.fields in
    let fields' = l.fields in
    record {
      row = l.row;
      seen = l.seen;
      fields = ground arith;
      final = λ h.
          let whole = k.final h in
          l.final (subst (λ r. is_unresolved r ≡ false) (sym whole) h) ∙ whole;
    }

-- At most one row has the key.
abbrev pub Keyed : List EffectAttempt → Type 0
Keyed es = (key : String) → count (of_key key) es ≤ 1

settle_count :
    (key k status : String) (es : List EffectAttempt)
    → count (of_key k) (settle_effects key status es) ≡ count (of_key k) es
unfolding count settle_effects
settle_count key k status [] = refl
settle_count key k status (e ∷ es) = ground (arith, settle_count key k status es)

pub Grown-Keyed : (es fs : List EffectAttempt) → Grown es fs → Keyed es → Keyed fs
unfolding has_effect
Grown-Keyed es fs unchanged one k = one k
Grown-Keyed es fs (settled key status) one k =
    let c = settle_count key k status es in let o = one k in ground arith
Grown-Keyed es fs (added e fresh) one k = elim (string_eq.dec e.idempotency_key k) [
  | yes q ↦ count-none (of_key k) es e (subst (λ i. any (of_key i) es ≡ false) q fresh)
  | no differ ↦ let c = count-append (of_key k) es e (ground arith) in let o = one k in ground arith
]
