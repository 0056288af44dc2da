-- ===== src/Mcp/Validation/Values.antt =====
-- What app/mcp/validation.py uses of Python on JSON values: `==`, `in`, iteration, `len`. `none`
-- is an exception, a `TypeError` or an `AttributeError`.
use Prim.Native.String.{[], ◌∷◌}
use mathlib.Core.List.{List}
use mcp_business_assistant.Prelude.{
  ℕ, suc, ◌==◌, String, Bool, true, false, ◌&&◌, ◌||◌, Option, none, some, map, any, str_eq,
}
use mcp_business_assistant.Prelude.Int.{ℤ}
use mcp_business_assistant.Json.{
  Json, Items, Fields, null, bool, str, arr, obj, nil, cons, end, field, get, has_key, keys, items,
  number, eq_number, is_truthy,
}

infixl 5 ◌>>=◌
abbrev pub ◌>>=◌ : {A B : Type 0} → Option A → (A → Option B) → Option B
none >>= f = none
some a >>= f = f a

abbrev equal_numbers : Option (ℤ × ℕ) → Option (ℤ × ℕ) → Bool
equal_numbers (some a) (some b) = eq_number a b
equal_numbers _ _ = false

abbrev pub size : Items → ℕ
size nil = 0
size (cons _ vs) = suc (size vs)

abbrev width : Fields → ℕ
width end = 0
width (field _ _ fs) = suc (width fs)

-- `a == b`; Booleans are numbers, and a dict forgets the order of its keys.
unfoldable mutual
  pub py_eq : Json → Json → Bool
  py_eq null null = true
  py_eq (str s) (str t) = str_eq s t
  py_eq (arr vs) (arr ws) = eq_items vs ws
  py_eq (obj fs) (obj gs) = (width fs == width gs) && eq_fields fs gs
  py_eq v w = equal_numbers (number v) (number w)

  eq_items : Items → Items → Bool
  eq_items nil nil = true
  eq_items (cons v vs) (cons w ws) = py_eq v w && eq_items vs ws
  eq_items _ _ = false

  eq_fields : Fields → Fields → Bool
  eq_fields end gs = true
  eq_fields (field k v fs) gs =
      elim (get k gs) [ none ↦ false | some w ↦ py_eq v w ] && eq_fields fs gs

abbrev pub is_bool : Json → Bool
is_bool (bool _) = true
is_bool _ = false

-- A list or a dict is no key and no member of a set.
abbrev pub is_hashable : Json → Bool
is_hashable (arr _) = false
is_hashable (obj _) = false
is_hashable _ = true

unfoldable pub characters : String → List Json
characters [] = List.[]
characters (c ∷ s) = List.◌∷◌ (str (c ∷ [])) (characters s)

-- `for x in value`
unfoldable pub iterate : Json → Option (List Json)
unfolding characters
iterate (arr vs) = some (items vs)
iterate (str s) = some (characters s)
iterate (obj fs) = some (map str (keys fs))
iterate _ = none

unfoldable pub starts_with : String → String → Bool
starts_with [] s = true
starts_with (c ∷ p) [] = false
starts_with (c ∷ p) (d ∷ s) = str_eq (c ∷ []) (d ∷ []) && starts_with p s

-- `text.removeprefix(p)` of a text that starts with `p`
unfoldable pub remove_prefix : String → String → String
remove_prefix [] s = s
remove_prefix (c ∷ p) [] = ""
remove_prefix (c ∷ p) (d ∷ s) = remove_prefix p s

substring : String → String → Bool
unfolding starts_with
substring p [] = starts_with p []
substring p (c ∷ s) = starts_with p (c ∷ s) || substring p s

-- `value in container`
unfoldable pub contained : Json → Json → Option Bool
unfolding substring
contained v (arr vs) = some (any (py_eq v) (items vs))
contained (str s) (str t) = some (substring s t)
contained (arr _) (obj _) = none
contained (obj _) (obj _) = none
contained (str k) (obj fs) = some (has_key k fs)
contained _ (obj _) = some false
contained _ _ = none

abbrev truthy_or : Bool → Json → Json → Json
truthy_or true v d = v
truthy_or false v d = d

-- `fields.get(key) or d`
abbrev pub or_value : Option Json → Json → Json
or_value none d = d
or_value (some v) d = truthy_or (is_truthy v) v d
