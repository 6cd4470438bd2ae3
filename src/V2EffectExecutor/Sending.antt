-- ===== src/V2EffectExecutor/Sending.antt =====
-- When a command is sent.
use mathlib.Core.Path.{subst}
use loop_engineering.Prelude.{
  String, true, ◌≡◌, ◌≢◌, refl, ◌↔◌, ◌⊎◌, inl, inr, none, some, List, [], ◌∷◌, ◌<>◌, arith, ◌∙◌, ap,
}
use loop_engineering.Prelude.{◌==◌, string_eq, option_eq, is_nil, Option-cases, Bool-cases}
use loop_engineering.Models.{WriteIntent, LoopEngineConfig}
use loop_engineering.WorkState.{EffectAttempt}
use loop_engineering.WriteGate.{Mapping, keys, validate_preconditions}
use loop_engineering.WriteGate.Permission.{IsPermitted, validate_preconditions-IsPermitted}
use loop_engineering.V2Resume.{EffectReadbackStatus, confirmed, no_effect, unknown}
use loop_engineering.V2EffectReadback.{pairs, target_suffix, same_set, at}
use loop_engineering.V2EffectExecutor.{
  V2EffectExecutionResult, executed, ExecutorPorts, Sent, write_intent, command, push_command, send,
  by_intent, by_target, by_readback, by_expectation, execute,
}

module _ (ports : ExecutorPorts) (repository : String) (config : LoopEngineConfig) where
  -- The effect was intended, was read back as absent, is permitted, and has this command.
  pub record MaySend (attempt : EffectAttempt) (args : List String) : Type 0 where
    pub before : Mapping
    pub after : Mapping
    pub intent : WriteIntent
    pub intended : attempt.status ≡ "INTENT_RECORDED"
    pub precondition : pairs attempt.expected_preconditions ≡ some before
    pub effect : pairs attempt.expected_effect ≡ some after
    pub precondition_given : before ≢ []
    pub effect_given : after ≢ []
    pub absent : ports.readback attempt ≡ no_effect
    pub targeted : write_intent ports repository config attempt before after ≡ some (some intent)
    pub permitted : IsPermitted intent before config
    pub commanded : command ports repository config attempt before after ≡ some (some args)

  -- What a run answers: nothing was sent, or one command, and how that went.
  abbrev pub Outcome : EffectAttempt → Sent → Type 0
  Outcome attempt out =
      (((out.1 ≡ []) × (out.0.status ≢ executed)))
      ⊎ ((args : List String) × (out.1 ≡ args ∷ [])
          × MaySend attempt args
          × ((out.0.status ≡ executed) ↔ (ports.runs args ≡ true)))

  sent_one :
      (args : List String) (out : Sent)
      → send ports repository config (some args) ≡ out
      → (out.1 ≡ args ∷ []) × ((out.0.status ≡ executed) ↔ (ports.runs args ≡ true))
  unfolding send
  sent_one args out h = (ground arith, (λ e. ground arith, λ e. ground arith))

  sent_nothing :
      (out : Sent)
      → send ports repository config none ≡ out
      → (out.1 ≡ []) × (out.0.status ≢ executed)
  unfolding send
  sent_nothing out h = (ground arith, λ e. ground arith)

  module _ (attempt : EffectAttempt) (before after : Mapping) where
    sent_by_intent :
        (intent : WriteIntent) (out : Sent)
        → by_intent ports repository config attempt before after (some intent) ≡ some out
        → ((out.1 ≡ []) × (out.0.status ≢ executed))
          ⊎ ((args : List String) × ((validate_preconditions intent before config).allowed ≡ true)
              × (command ports repository config attempt before after ≡ some (some args))
              × (send ports repository config (some args) ≡ out))
    unfolding by_intent
    sent_by_intent intent out h =
        elim (Bool-cases (validate_preconditions intent before config).allowed) [
          | inr refused ↦ inl (ground arith, λ e. ground arith)
          | inl allowed ↦
              elim (Option-cases (command ports repository config attempt before after)) [
                | inl raised ↦ absurd (ground arith)
                | inr (o, e) ↦ elim (Option-cases o) [
                  | inl missing ↦ inl (sent_nothing out (ground arith))
                  | inr (args, found) ↦ inr (args, allowed, e ∙ ap some found, ground arith)
                ]
              ]
        ]

    sent_by_readback :
        attempt.status ≡ "INTENT_RECORDED"
        → pairs attempt.expected_preconditions ≡ some before
        → pairs attempt.expected_effect ≡ some after
        → before ≢ []
        → after ≢ []
        → (out : Sent)
        → by_readback ports repository config attempt before after (ports.readback attempt)
          ≡ some out
        → Outcome attempt out
    unfolding by_readback by_target by_intent
    sent_by_readback intended p q m n out h = by_status (ports.readback attempt) refl h
      where
        by_status :
            (s : EffectReadbackStatus)
            → ports.readback attempt ≡ s
            → by_readback ports repository config attempt before after s ≡ some out
            → Outcome attempt out
        by_status confirmed e h = inl (ground arith, λ x. ground arith)
        by_status unknown e h = inl (ground arith, λ x. ground arith)
        by_status no_effect e h =
            elim (Option-cases (write_intent ports repository config attempt before after)) [
              | inl raised ↦ absurd (ground arith)
              | inr (o, e1) ↦ elim (Option-cases o) [
                | inl missing ↦ inl (ground arith, λ x. ground arith)
                | inr (intent, e2) ↦ elim (sent_by_intent intent out (ground arith)) [
                  | inl quiet ↦ inl quiet
                  | inr (args, allowed, commanded, same) ↦
                      let (one, went) = sent_one args out same in
                      inr (
                        args,
                        one,
                        record {
                          before = before;
                          after = after;
                          intent = intent;
                          intended = intended;
                          precondition = p;
                          effect = q;
                          precondition_given = m;
                          effect_given = n;
                          absent = e;
                          targeted = e1 ∙ ap some e2;
                          permitted =
                              (validate_preconditions-IsPermitted intent before config).0 allowed;
                          commanded = commanded;
                        },
                        went,
                      )
                ]
              ]
            ]

  -- A run sends no command and is not EXECUTED, or it sends one command: of an effect that was intended,
  -- read back as absent and permitted by the gate. It is then EXECUTED exactly when the command ran.
  pub execute-Outcome :
      (attempt : EffectAttempt) (out : Sent)
      → execute ports repository config attempt ≡ some out
      → Outcome attempt out
  unfolding execute by_expectation
  execute-Outcome attempt out h = elim (Option-cases (pairs attempt.expected_preconditions)) [
    | inl bad ↦ inl (ground arith, λ x. ground arith)
    | inr (before, p) ↦ elim (Option-cases (pairs attempt.expected_effect)) [
      | inl bad ↦ inl (ground arith, λ x. ground arith)
      | inr (after, q) ↦ given before after p q
    ]
  ]
    where
      given :
          (before after : Mapping)
          → pairs attempt.expected_preconditions ≡ some before
          → pairs attempt.expected_effect ≡ some after
          → Outcome attempt out
      given before after p q = elim (Bool-cases (attempt.status == "INTENT_RECORDED")) [
        | inr other ↦ inl (ground arith, λ x. ground arith)
        | inl intended ↦ elim (Bool-cases (is_nil before)) [
          | inl e ↦ inl (ground arith, λ x. ground arith)
          | inr m ↦ elim (Bool-cases (is_nil after)) [
            | inl e ↦ inl (ground arith, λ x. ground arith)
            | inr n ↦
                sent_by_readback attempt before after (ground arith) p q (λ e. ground arith)
                  (λ e. ground arith) out (ground arith)
          ]
        ]
      ]

  -- A push that is sent moves a branch that is not the trunk to the expected head, where both the
  -- preconditions and the effect name a head and nothing else.
  pub record IsBranchPush (attempt : EffectAttempt) (args : List String) : Type 0 where
    pub branch : String
    pub before : Mapping
    pub after : Mapping
    pub target : target_suffix attempt.target_identity "branch" ≡ some branch
    pub off_trunk : branch ≢ config.trunk_branch
    pub precondition : pairs attempt.expected_preconditions ≡ some before
    pub effect : pairs attempt.expected_effect ≡ some after
    pub only_head_before : same_set (keys before) ("head" ∷ []) ≡ true
    pub only_head_after : same_set (keys after) ("head" ∷ []) ≡ true
    pub sent : args ≡ "git" ∷ "push" ∷ "origin" ∷ (at "head" after <> ":refs/heads/" <> branch) ∷ []

  push_sent :
      (attempt : EffectAttempt) (args : List String)
      → attempt.kind ≡ "PUSH"
      → MaySend attempt args
      → IsBranchPush attempt args
  unfolding write_intent command push_command
  push_sent attempt args kind may =
      elim (Option-cases (target_suffix attempt.target_identity "branch")) [
        | inl missing ↦ absurd (ground (arith, may.commanded))
        | inr (branch, e) ↦ record {
          branch = branch;
          before = may.before;
          after = may.after;
          target = e;
          off_trunk = λ same. ground (arith, may.targeted, may.permitted.off_trunk);
          precondition = may.precondition;
          effect = may.effect;
          only_head_before = ground (arith, may.commanded);
          only_head_after = ground (arith, may.commanded);
          sent = ground (arith, may.commanded);
        }
      ]

  -- A command that is sent for a PUSH is one `git push` of the expected head to a branch that is not the
  -- configured trunk.
  pub push_off_trunk :
      (attempt : EffectAttempt) (result : V2EffectExecutionResult) (args : List String)
      → attempt.kind ≡ "PUSH"
      → execute ports repository config attempt ≡ some (result, args ∷ [])
      → IsBranchPush attempt args
  push_off_trunk attempt result args kind h = elim (execute-Outcome attempt (result, args ∷ []) h) [
    | inl (nothing, other) ↦ absurd (ground arith)
    | inr (sent, same, may, went) ↦
        let e : sent ≡ args = ground arith in
        subst (IsBranchPush attempt) e (push_sent attempt sent kind may)
  ]
