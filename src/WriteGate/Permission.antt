-- ===== src/WriteGate/Permission.antt =====
-- When the gate opens.
use loop_engineering.Prelude.{
  String, Bool, true, ◌≡◌, ◌≢◌, refl, ◌↔◌, Option, none, some, [], ◌∷◌, arith,
}
use loop_engineering.Prelude.{string_eq, option_eq, contains, all, lookup, All, all-All, All-all}
use loop_engineering.Models.{WriteIntent, LoopEngineConfig}
use loop_engineering.WriteGate.{
  Mapping, keys, allowed_projects, agrees, required, identified, validate_preconditions, validate,
}

-- Every expected item is in the mapping that was read back.
abbrev pub Holds : Mapping → Mapping → Type 0
Holds fresh expected = All (λ (p : String × String). lookup p.0 fresh ≡ some p.1) expected

pub record IsPermitted (intent : WriteIntent) (fresh : Mapping) (config : LoopEngineConfig)
    : Type 0 where
  pub project :
      intent.target_kind ≡ "project"
      → contains (allowed_projects config) intent.target_identity ≡ true
  pub off_trunk : intent.target_kind ≡ "branch" → intent.target_identity ≢ config.trunk_branch
  pub identity :
      intent.target_kind ≡ "branch"
      → intent.mutation_kind ≡ "content"
      → All (λ key. contains (keys intent.expected_preconditions) key ≡ true) required
  pub bounded : intent.mutation_kind ≢ "verify_effect" → intent.expected_preconditions ≢ []
  pub fresh_now : Holds fresh intent.expected_preconditions
  pub verifies : intent.mutation_kind ≡ "verify_effect" → intent.expected_effect ≢ []

agrees-Holds : (fresh expected : Mapping) → (agrees fresh expected ≡ true) ↔ Holds fresh expected
unfolding agrees all
agrees-Holds fresh [] = (λ h. tt, λ h. refl)
agrees-Holds fresh (p ∷ ps) = (
  λ h. (ground arith, (agrees-Holds fresh ps).0 (ground arith)),
  λ h. ground (arith, (agrees-Holds fresh ps).1 h.1),
)

-- `validate_preconditions` allows an intent exactly when it is permitted: a project target is one of
-- the configured ones, a branch target is not the trunk, a content change of a branch names its
-- branch, pull request and head, there is something to check, and every expected precondition was
-- read as expected.
pub validate_preconditions-IsPermitted :
    (intent : WriteIntent) (fresh : Mapping) (config : LoopEngineConfig)
    → ((validate_preconditions intent fresh config).allowed ≡ true)
      ↔ IsPermitted intent fresh config
unfolding validate_preconditions
validate_preconditions-IsPermitted intent fresh config = (
  λ h. record {
    project = λ t. ground arith;
    off_trunk = λ t. ground arith;
    identity = λ t m. all-All named required (ground arith);
    bounded = λ m. ground arith;
    fresh_now = (agrees-Holds fresh intent.expected_preconditions).0 (ground arith);
    verifies = λ m. ground arith;
  },
  λ p.
      ground (arith, (agrees-Holds fresh intent.expected_preconditions).1 p.fresh_now, named_all p),
)
  where
    named : String → Bool
    named key = contains (keys intent.expected_preconditions) key

    named_all :
        IsPermitted intent fresh config
        → intent.target_kind ≡ "branch"
        → intent.mutation_kind ≡ "content"
        → identified intent ≡ true
    named_all p t m = All-all named required (p.identity t m)

-- What `validate` adds: an expected effect is read back as expected.
abbrev pub IsReadBack : WriteIntent → Option Mapping → Type 0
IsReadBack intent none = intent.expected_effect ≡ []
IsReadBack intent (some readback) = Holds readback intent.expected_effect

-- `validate` allows an intent exactly when its preconditions are permitted and its effect was read
-- back as expected; without a read-back it allows only an intent that expects no effect.
pub validate-allowed :
    (intent : WriteIntent) (fresh : Mapping) (readback : Option Mapping) (config : LoopEngineConfig)
    → ((validate intent fresh readback config).allowed ≡ true)
      ↔ (IsPermitted intent fresh config × IsReadBack intent readback)
unfolding validate
validate-allowed intent fresh none config =
    let gate = validate_preconditions-IsPermitted intent fresh config in
    (λ h. (gate.0 (ground arith), ground arith), λ h. ground (arith, gate.1 h.0))
validate-allowed intent fresh (some readback) config =
    let gate = validate_preconditions-IsPermitted intent fresh config in
    let read = agrees-Holds readback intent.expected_effect in
    (
      λ h. (gate.0 (ground arith), read.0 (ground arith)),
      λ h. ground (arith, gate.1 h.0, read.1 h.1),
    )
