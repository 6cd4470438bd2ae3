-- ===== src/V2EffectReadback/Targets.antt =====
-- src/loop_engineering/v2_effect_readback.py: repositories, pairs of an expectation, and target identities.
use mathlib.Core.Option
use Prim.Native.Char.{Char}
use loop_engineering.Prelude.{
  ℕ, String, Bool, true, false, ◌+◌, ◌*◌, ◌&&◌, ◌||◌, not, Option, none, some, List, [], ◌∷◌, ◌<>◌,
}
use loop_engineering.Prelude.{
  ◌==◌, string_eq, option_eq, nat_eq, if◌then◌else◌, contains, all, is_empty, is_some, length, leb,
  has_nul, size, strip_prefix, split_slash, is_stripped,
}
use loop_engineering.WriteGate.{Mapping, keys, agrees}

-- A character of a text: no digit, a decimal digit, or a digit that `int` refuses.
pub data Digit : Type 0 where
  no_digit : Digit
  digit : ℕ → Digit
  other_digit : Digit

-- The slash is one character, so `count("/")` is 1 when the second part has none.
unfoldable pub valid_parts : Option (String × String) → Bool
valid_parts none = false
valid_parts (some (owner, name)) =
    not (is_some (split_slash name))
    && not (is_empty owner)
    && not (is_empty name)
    && is_stripped owner
    && is_stripped name

-- `_valid_repository`
unfoldable pub valid_repository : String → Bool
unfolding valid_parts
valid_repository repository =
    not (has_nul repository) && leb (size repository) 200 && valid_parts (split_slash repository)

-- `_pairs`, from the items taken so far.
unfoldable pub pairs_from : Mapping → Mapping → Option Mapping
pairs_from result [] = some []
pairs_from result ((key, value) ∷ values) =
    let rest = pairs_from ((key, value) ∷ result) values in
    if is_empty key || contains (keys result) key || has_nul key || has_nul value
    then none
    else Option.map (λ items. (key, value) ∷ items) rest

-- `_pairs`
unfoldable pub pairs : List (String × String) → Option Mapping
unfolding pairs_from
pairs values = pairs_from [] values

usable : String → Option String
usable value =
    if is_empty value || has_nul value || not (leb (size value) 255) then none else some value

-- `_target_suffix`
unfoldable pub target_suffix : String → String → Option String
unfolding usable
target_suffix identity prefix = Option.bind (strip_prefix (prefix <> ":") identity) usable

-- `value.isdigit()`
is_digits : (Char → Digit) → String → Bool
is_digits digit_of String.[] = true
is_digits digit_of (String.◌∷◌ c s) =
    let rest = is_digits digit_of s in elim (digit_of c) [ no_digit ↦ false | _ ↦ rest ]

-- `int(value)` of a text of digits, `none` where it raises `ValueError`.
int_from : (Char → Digit) → ℕ → String → Option ℕ
int_from digit_of n String.[] = some n
int_from digit_of n (String.◌∷◌ c s) = elim (digit_of c) [
  | digit d ↦ int_from digit_of (n * 10 + d) s
  | _ ↦ none
]

number_of : (Char → Digit) → String → Option (Option ℕ)
unfolding is_digits int_from
number_of digit_of value =
    if not (is_digits digit_of value)
    then some none
    else Option.map (λ n. if n == 0 then none else some n) (int_from digit_of 0 value)

-- `_target_number`: `none` where `int` raises, `some none` for no number.
unfoldable pub target_number : (Char → Digit) → String → String → Option (Option ℕ)
unfolding number_of
target_number digit_of identity prefix = elim (target_suffix identity prefix) [
  | none ↦ some none
  | some value ↦ number_of digit_of value
]

-- `dict == dict`
unfoldable pub same_items : Mapping → Mapping → Bool
same_items a b = length a == length b && agrees b a

-- `set(a) == set(b)`, of keys.
unfoldable pub same_set : List String → List String → Bool
same_set a b = all (contains b) a && all (contains a) b
