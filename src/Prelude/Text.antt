-- ===== src/Prelude/Text.antt =====
-- Python's `str` operations, over the native texts: their characters are code points.
use Prim.Native.Nat.{ℕ, zero, suc, ◌/◌, ◌%◌, Ordering}
use Prim.Native.Char.{Char, code}
use Prim.Native.String.{String, compare, ◌++◌, ◌++◌ as ◌<>◌}
use mathlib.Core.Path.{◌≡◌, refl}
use mathlib.Core.Bool.{Bool, true, false, ◌&&◌, ◌||◌, not}
use mathlib.Core.Option
use mathlib.Core.Option.{Option, none, some}
use mathlib.Core.List.{List, [], ◌∷◌}
use loop_engineering.Prelude.Equality.{◌==◌, ◌!=◌, nat_eq, string_eq, if◌then◌else◌}

-- `bool(text)`
abbrev pub is_empty : String → Bool
is_empty String.[] = true
is_empty (String.◌∷◌ c s) = false

-- `bool(value)` of a `str | None`
abbrev pub truthy : Option String → Bool
truthy none = false
truthy (some String.[]) = false
truthy (some (String.◌∷◌ c s)) = true

abbrev pub is_some {ℓ} : {A : Type ℓ} → Option A → Bool
is_some none = false
is_some (some a) = true

digit_text : ℕ → String
digit_text zero = "0"
digit_text (suc zero) = "1"
digit_text (suc (suc zero)) = "2"
digit_text (suc (suc (suc zero))) = "3"
digit_text (suc (suc (suc (suc zero)))) = "4"
digit_text (suc (suc (suc (suc (suc zero))))) = "5"
digit_text (suc (suc (suc (suc (suc (suc zero)))))) = "6"
digit_text (suc (suc (suc (suc (suc (suc (suc zero))))))) = "7"
digit_text (suc (suc (suc (suc (suc (suc (suc (suc zero)))))))) = "8"
digit_text _ = "9"

-- Each round takes the last digit off; a number has at most as many digits as its value plus one.
decimal_digits : ℕ → ℕ → String → String
unfolding digit_text
decimal_digits zero n out = out
decimal_digits (suc fuel) n out =
    let text = digit_text (n % 10) ++ out in
    let rest = decimal_digits fuel (n / 10) text in if n / 10 == 0 then text else rest

-- `str(n)`
unfoldable pub decimal : ℕ → String
unfolding decimal_digits nat_eq
decimal n = decimal_digits (suc n) n ""

-- `text[:n]`
unfoldable pub prefix : ℕ → String → String
prefix zero s = String.[]
prefix (suc n) String.[] = String.[]
prefix (suc n) (String.◌∷◌ c s) = String.◌∷◌ c (prefix n s)

decimal_test : decimal 1207 <> decimal 0 ≡ "12070"
unfolding decimal
decimal_test = refl

-- `a <= b` of two texts: the order of their code points.
unfoldable pub text_le : String → String → Bool
text_le a b = elim (compare a b) [ Ordering.gt ↦ false | _ ↦ true ]

-- `a <= b` of two pairs of texts.
unfoldable pub pair_le : String × String → String × String → Bool
pair_le (a, b) (c, d) = elim (compare a c) [
  | Ordering.lt ↦ true
  | Ordering.eq ↦ text_le b d
  | Ordering.gt ↦ false
]

-- `mapping.get(key)` over the items of a mapping.
unfoldable pub lookup {ℓ} : {A : Type ℓ} → String → List (String × A) → Option A
lookup key [] = none
lookup key ((k, v) ∷ items) = if k == key then some v else lookup key items

-- `"\x00" in text`
unfoldable pub has_nul : String → Bool
has_nul String.[] = false
has_nul (String.◌∷◌ c s) = code c == 0 || has_nul s

-- `len(text)`
unfoldable pub size : String → ℕ
size String.[] = 0
size (String.◌∷◌ c s) = suc (size s)

-- `text[len(marker):]` if `text.startswith(marker)`
unfoldable pub strip_prefix : String → String → Option String
strip_prefix String.[] s = some s
strip_prefix (String.◌∷◌ c p) String.[] = none
strip_prefix (String.◌∷◌ c p) (String.◌∷◌ d s) =
    let rest = strip_prefix p s in if code c == code d then rest else none

-- `text.split("/", maxsplit=1)` of a text with a slash, whose code is 47.
unfoldable pub split_slash : String → Option (String × String)
split_slash String.[] = none
split_slash (String.◌∷◌ c s) =
    let rest = split_slash s in
    if code c == 47 then some (String.[], s) else Option.map (λ p. (String.◌∷◌ c p.0, p.1)) rest

-- Python's `str.isspace` of one character.
is_space : Char → Bool
is_space c =
    within 9 13
    || within 28 32
    || n == 133
    || n == 160
    || n == 5760
    || within 8192 8202
    || within 8232 8233
    || n == 8239
    || n == 8287
    || n == 12288
  where
    n : ℕ
    n = code c

    within : ℕ → ℕ → Bool
    within low high = n / low != 0 && n / suc high == 0

ends_in_space : Bool → String → Bool
ends_in_space last String.[] = last
ends_in_space last (String.◌∷◌ c s) = ends_in_space (is_space c) s

-- `text.strip() == text`
unfoldable pub is_stripped : String → Bool
unfolding is_space ends_in_space
is_stripped String.[] = true
is_stripped (String.◌∷◌ c s) = not (is_space c) && not (ends_in_space (is_space c) s)

text_test :
    (strip_prefix "pr:" "pr:12" ≡ some "12")
    × (strip_prefix "pr:" "p" ≡ none)
    × (split_slash "a/b/c" ≡ some ("a", "b/c"))
    × (is_stripped "a b" ≡ true)
    × (is_stripped "a\t" ≡ false)
    × (has_nul "ab" ≡ false)
    × (size "abc" ≡ 3)
unfolding strip_prefix split_slash is_stripped has_nul size nat_eq
text_test = (refl, refl, refl, refl, refl, refl, refl)
