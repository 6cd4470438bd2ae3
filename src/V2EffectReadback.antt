-- ===== src/V2EffectReadback.antt =====
-- src/loop_engineering/v2_effect_readback.py: what has become of an external effect that was attempted.
-- `GitHubReadbackCommandRunner`, `json.loads`, `urllib.parse.quote` and the digits of Unicode are
-- `ReadbackPorts`. An answer `none` of a port, and of what uses it, is one of the exceptions that
-- `readback` catches. A dict is the list of its items, each key once.
mod Targets
pub mod Definite
unfoldable pub use Targets.*
use mathlib.Core.Option
use Prim.Native.Char.{Char}
use loop_engineering.Prelude.{
  ℕ, String, Bool, true, false, ◌+◌, ◌*◌, ◌&&◌, ◌||◌, not, Option, none, some, List, [], ◌∷◌, ◌<>◌,
  zero, suc,
}
use loop_engineering.Prelude.{
  ◌==◌, ◌!=◌, string_eq, option_eq, nat_eq, if◌then◌else◌, contains, all, is_nil, is_empty, is_some,
  lookup, length, leb, has_nul, size, strip_prefix, split_slash, is_stripped, decimal,
}
use loop_engineering.WorkState.{EffectAttempt}
use loop_engineering.WriteGate.{Mapping, keys, agrees}
use loop_engineering.V2Resume.{EffectReadbackStatus, confirmed, no_effect, unknown}

-- A value of `json.loads`. A float is known by the natural number that it equals, if any.
mutual
  pub data Json : Type 0 where
    null : Json
    boolean : Bool → Json
    natural : ℕ → Json
    other_number : Option ℕ → Json
    string : String → Json
    array : JsonValues → Json
    object : JsonItems → Json

  pub data JsonValues : Type 0 where
    no_values : JsonValues
    json_value : Json → JsonValues → JsonValues

  pub data JsonItems : Type 0 where
    no_items : JsonItems
    json_item : String → Json → JsonItems → JsonItems

-- `payload.get(key)`
unfoldable pub member : String → JsonItems → Option Json
member key no_items = none
member key (json_item k found rest) =
    let later = member key rest in if k == key then some found else later

pub record ReadbackPorts : Type 0 where
  pub run : List String → Option String
  pub loads : String → Option Json
  pub quote : String → String
  pub digit_of : Char → Digit

-- `_compare_scalar`
unfoldable pub compare_scalar : Option String → String → String → EffectReadbackStatus
compare_scalar observed before after =
    if observed == some after
    then confirmed
    else if observed == some before
    then no_effect
    else unknown

-- `_json_mapping`
json_mapping : Json → Option (JsonItems)
json_mapping (object items) = some items
json_mapping _ = none

text_of : Option Json → Option String
text_of (some (string s)) = some s
text_of _ = none

nested : Option Json → String → Option String
unfolding text_of
nested (some (object items)) key = text_of (member key items)
nested _ key = none

-- `payload.get("number") == number`: Python's booleans equal 0 and 1.
is_number : ℕ → Option Json → Bool
is_number n (some (natural m)) = m == n
is_number n (some (other_number m)) = m == some n
is_number n (some (boolean true)) = n == 1
is_number n (some (boolean false)) = n == 0
is_number n _ = false

boolean_text : Option Json → Option String
boolean_text (some (boolean true)) = some "true"
boolean_text (some (boolean false)) = some "false"
boolean_text _ = none

abbrev is_bool_text : String → Bool
is_bool_text s = s == "true" || s == "false"

-- `before[key]`, after a test that the key is there.
abbrev pub at : String → Mapping → String
at key items = elim (lookup key items) [ none ↦ "" | some value ↦ value ]

-- The loop of `_read_issue_update`.
observed_items : JsonItems → List String → Option Mapping
unfolding text_of
observed_items payload [] = some []
observed_items payload (key ∷ rest) =
    Option.bind (text_of (member key payload))
      (λ value. Option.map (λ items. (key, value) ∷ items) (observed_items payload rest))

compare_items : Mapping → Mapping → Option Mapping → EffectReadbackStatus
compare_items before after none = unknown
compare_items before after (some observed) =
    if same_items observed after
    then confirmed
    else if same_items observed before
    then no_effect
    else unknown

-- What an observed scalar says; no scalar is no proof.
unfoldable pub compare_found : Mapping → Mapping → String → Option String → EffectReadbackStatus
unfolding compare_scalar
compare_found before after key none = unknown
compare_found before after key (some observed) =
    compare_scalar (some observed) (at key before) (at key after)

module _ (ports : ReadbackPorts) (repository : String) where
  fetch : List String → Option (JsonItems)
  unfolding json_mapping
  fetch args = Option.bind (ports.run args) (λ raw. Option.bind (ports.loads raw) json_mapping)

  -- The head of the branch, as GitHub reports it.
  unfoldable pub observed_head : String → Option (Option String)
  unfolding fetch nested
  observed_head branch =
      Option.map (λ payload. nested (member "object" payload) "sha")
        (fetch
          ("gh" ∷ "api" ∷ ("repos/" <> repository <> "/git/ref/heads/" <> ports.quote branch) ∷ []))

  unfoldable pub push_status : Mapping → Mapping → Option String → Option EffectReadbackStatus
  unfolding compare_scalar
  push_status before after none = some unknown
  push_status before after (some branch) =
      if not (same_set (keys before) ("head" ∷ [])) || not (same_set (keys after) ("head" ∷ []))
      then some unknown
      else Option.map (λ observed. compare_scalar observed (at "head" before) (at "head" after))
          (observed_head branch)

  unfoldable pub read_push : String → Mapping → Mapping → Option EffectReadbackStatus
  unfolding push_status
  read_push target before after = push_status before after (target_suffix target "branch")

  -- `_pr`
  unfoldable pub pull_request : ℕ → Option (JsonItems)
  unfolding fetch
  pull_request number = fetch (
      "gh"
      ∷ "pr"
      ∷ "view"
      ∷ decimal number
      ∷ "--repo"
      ∷ repository
      ∷ "--json"
      ∷ "number,state,isDraft,headRefOid,baseRefName,mergeCommit"
      ∷ [])

  ready_status : ℕ → Mapping → Mapping → JsonItems → EffectReadbackStatus
  unfolding is_number text_of boolean_text compare_found
  ready_status number before after payload =
      if not (is_number number (member "number" payload))
        || text_of (member "headRefOid" payload) != some (at "head" before)
      then unknown
      else compare_found before after "draft" (boolean_text (member "isDraft" payload))

  ready_numbered : Option ℕ → Mapping → Mapping → Option EffectReadbackStatus
  unfolding ready_status
  ready_numbered none before after = some unknown
  ready_numbered (some number) before after =
      if not (same_set (keys before) ("head" ∷ "draft" ∷ []))
        || not (same_set (keys after) ("draft" ∷ []))
        || not (is_bool_text (at "draft" before))
        || not (is_bool_text (at "draft" after))
      then some unknown
      else Option.map (ready_status number before after) (pull_request number)

  unfoldable pub read_ready : String → Mapping → Mapping → Option EffectReadbackStatus
  unfolding ready_numbered
  read_ready target before after =
      Option.bind (target_number ports.digit_of target "pr") (λ n. ready_numbered n before after)

  merge_status : ℕ → Mapping → Mapping → JsonItems → EffectReadbackStatus
  unfolding is_number text_of compare_found
  merge_status number before after payload =
      if not (is_number number (member "number" payload))
        || text_of (member "headRefOid" payload) != some (at "head" before)
        || text_of (member "baseRefName" payload) != some (at "base" before)
      then unknown
      else compare_found before after "state" (text_of (member "state" payload))

  merge_numbered : Option ℕ → Mapping → Mapping → Option EffectReadbackStatus
  unfolding merge_status
  merge_numbered none before after = some unknown
  merge_numbered (some number) before after =
      if not (same_set (keys before) ("head" ∷ "base" ∷ "state" ∷ []))
        || not (same_set (keys after) ("state" ∷ []))
      then some unknown
      else Option.map (merge_status number before after) (pull_request number)

  unfoldable pub read_merge : String → Mapping → Mapping → Option EffectReadbackStatus
  unfolding merge_numbered
  read_merge target before after =
      Option.bind (target_number ports.digit_of target "pr") (λ n. merge_numbered n before after)

  issue_status : ℕ → Mapping → Mapping → JsonItems → EffectReadbackStatus
  unfolding is_number observed_items compare_items
  issue_status number before after payload =
      if not (is_number number (member "number" payload))
      then unknown
      else compare_items before after (observed_items payload (keys before))

  issue_numbered : Option ℕ → Mapping → Mapping → Option EffectReadbackStatus
  unfolding fetch issue_status
  issue_numbered none before after = some unknown
  issue_numbered (some number) before after =
      if not (same_set (keys before) (keys after))
        || is_nil before
        || not (all (contains ("state" ∷ "title" ∷ [])) (keys before))
      then some unknown
      else Option.map (issue_status number before after) (
          fetch (
            "gh"
            ∷ "issue"
            ∷ "view"
            ∷ decimal number
            ∷ "--repo"
            ∷ repository
            ∷ "--json"
            ∷ "number,state,title"
            ∷ []))

  unfoldable pub read_issue_update : String → Mapping → Mapping → Option EffectReadbackStatus
  unfolding issue_numbered
  read_issue_update target before after =
      Option.bind (target_number ports.digit_of target "issue") (λ n. issue_numbered n before after)

  by_kind : String → String → Mapping → Mapping → Option EffectReadbackStatus
  unfolding read_push read_ready read_merge read_issue_update
  by_kind kind target before after =
      if kind == "PUSH"
      then read_push target before after
      else if kind == "READY"
      then read_ready target before after
      else if kind == "MERGE"
      then read_merge target before after
      else if kind == "ISSUE_UPDATE"
      then read_issue_update target before after
      else some unknown

  -- `except (OSError, subprocess.SubprocessError, ValueError)`
  caught : Option EffectReadbackStatus → EffectReadbackStatus
  caught none = unknown
  caught (some status) = status

  by_pairs : EffectAttempt → Option Mapping → Option Mapping → EffectReadbackStatus
  unfolding by_kind caught
  by_pairs attempt (some before) (some after) =
      if is_nil before || is_nil after || same_items before after
      then unknown
      else caught (by_kind attempt.kind attempt.target_identity before after)
  by_pairs attempt _ _ = unknown

  -- `GitHubEffectReadbackAdapter.readback`
  unfoldable pub readback : EffectAttempt → EffectReadbackStatus
  unfolding by_pairs
  readback attempt =
      if not (valid_repository repository)
      then unknown
      else if not (contains ("INTENT_RECORDED" ∷ "UNCERTAIN" ∷ []) attempt.status)
      then unknown
      else by_pairs attempt (pairs attempt.expected_preconditions) (pairs attempt.expected_effect)
