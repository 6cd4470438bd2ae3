-- ===== src/WorkStore/Literals.antt =====
-- src/loop_engineering/work_state.py and src/loop_engineering/v2_execution_state.py: the values that may
-- be written into a statement. A statement with any other value raises `WorkStateUnavailable`.
use Prim.Native.Char.{code}
use loop_engineering.Prelude.{
  ℕ, suc, ◌+◌, String, Bool, true, false, ◌&&◌, not, Option, none, some, List, [], ◌∷◌, map, ◌≡◌,
  refl,
}
use loop_engineering.Prelude.{
  string_eq, nat_eq, if◌then◌else◌, contains, all, is_empty, leb, ltb, has_nul, size,
}
use loop_engineering.WriteGate.{Mapping}

-- `_literal`
unfoldable pub is_literal : String → Bool
is_literal value = not (has_nul value) && leb (size value) 4096

-- `_nullable_literal`
unfoldable pub is_nullable : Option String → Bool
unfolding is_literal
is_nullable none = true
is_nullable (some value) = is_literal value

-- The characters that `json.dumps(..., ensure_ascii=False)` writes for one of a text.
escaped : ℕ → ℕ
escaped c =
    if contains (34 ∷ 92 ∷ 8 ∷ 9 ∷ 10 ∷ 12 ∷ 13 ∷ []) c then 2 else if ltb c 32 then 6 else 1

escaped_size : String → ℕ
unfolding escaped
escaped_size String.[] = 0
escaped_size (String.◌∷◌ c s) = escaped (code c) + escaped_size s

-- `len(json.dumps(value))`
json_size : String → ℕ
unfolding escaped_size
json_size value = 2 + escaped_size value

-- The items of an array or object, each followed by a comma or the closing bracket.
items_size : List ℕ → ℕ
items_size [] = 0
items_size (n ∷ ns) = suc n + items_size ns

-- `[]` has two characters, and any other array one more than its items with what follows them.
array_size : List ℕ → ℕ
unfolding items_size
array_size [] = 2
array_size (n ∷ ns) = suc (items_size (n ∷ ns))

short_text : ℕ → String → Bool
short_text limit value = not (has_nul value) && leb (size value) limit

-- `_json_array` and `_json_literal`
unfoldable pub is_json_array : List String → Bool
unfolding short_text array_size json_size
is_json_array values = all (short_text 1024) values && leb (array_size (map json_size values)) 4096

-- The tests on the pairs, with the keys taken so far.
pairs_from : List String → Mapping → Bool
unfolding short_text
pairs_from taken [] = true
pairs_from taken ((key, value) ∷ values) =
    not (is_empty key)
    && not (contains taken key)
    && short_text 128 key
    && short_text 1024 value
    && pairs_from (key ∷ taken) values

-- `_pairs(values) is not None` of v2_execution_state.py, and the loop of `_pairs_json_literal`.
unfoldable pub are_pairs : Mapping → Bool
unfolding pairs_from
are_pairs values = pairs_from [] values

-- `_json_pairs` and `_pairs_json_literal`
unfoldable pub is_json_object : Mapping → Bool
unfolding are_pairs array_size json_size
is_json_object values =
    are_pairs values
    && leb (array_size (map (λ (p : String × String). suc (json_size p.0 + json_size p.1)) values))
        4096

literals_test :
    (is_json_array [] ≡ true)
    × (array_size (map json_size ("a" ∷ "b\"" ∷ [])) ≡ 11)
    × (is_json_object (("a", "1") ∷ ("a", "2") ∷ []) ≡ false)
unfolding is_json_array is_json_object are_pairs array_size json_size all size has_nul string_eq
    nat_eq
literals_test = (refl, refl, refl)
