-- ===== src/Json.antt =====
-- The JSON-like values of the program: tool arguments, schemas and structured results are
-- `dict[str, Any]` values that come from `json.loads`, so they hold no other types.

pub mod Dumps
use mcp_business_assistant.Prelude.{
  ℕ, String, ◌^◌, Bool, true, false, not, Option, none, some, List, [], ◌∷◌, if◌then◌else◌, str_eq,
}
use mcp_business_assistant.Prelude.Int.{ℤ, pos, eqb_ℤ, ltb_ℤ, scale}
use mcp_business_assistant.Prelude.Text.{◌⊕◌, is_empty_text, str_ℤ, repr_str}

-- A finite float is `float m k r`: the number m / 2^k, whose `repr` is the text `r`. A list or a
-- dict is a list type of its own. The keys of a dict are distinct and in insertion order.
mutual
  pub data Json : Type 0 where
    null : Json
    bool : Bool → Json
    int : ℤ → Json
    float : ℤ → ℕ → String → Json
    str : String → Json
    arr : Items → Json
    obj : Fields → Json

  pub data Items : Type 0 where
    nil : Items
    cons : Json → Items → Items

  pub data Fields : Type 0 where
    end : Fields
    field : String → Json → Fields → Fields

-- `fields.get(key)`
unfoldable pub get : String → Fields → Option Json
get k end = none
get k (field j v fs) = if str_eq j k then some v else get k fs

-- `key in fields`
unfoldable pub has_key : String → Fields → Bool
has_key k end = false
has_key k (field j _ fs) = if str_eq j k then true else has_key k fs

unfoldable pub keys : Fields → List String
keys end = []
keys (field k _ fs) = k ∷ keys fs

unfoldable pub items : Items → List Json
items nil = []
items (cons v vs) = v ∷ items vs

unfoldable pub of_list : List Json → Items
of_list [] = nil
of_list (v ∷ vs) = cons v (of_list vs)

unfoldable pub entries : Fields → List (String × Json)
entries end = []
entries (field k v fs) = (k, v) ∷ entries fs

unfoldable pub of_entries : List (String × Json) → Fields
of_entries [] = end
of_entries ((k, v) ∷ es) = field k v (of_entries es)

-- `bool(value)`
unfoldable pub is_truthy : Json → Bool
is_truthy null = false
is_truthy (bool b) = b
is_truthy (int n) = not (eqb_ℤ n (pos 0))
is_truthy (float m _ _) = not (eqb_ℤ m (pos 0))
is_truthy (str s) = not (is_empty_text s)
is_truthy (arr nil) = false
is_truthy (arr (cons _ _)) = true
is_truthy (obj end) = false
is_truthy (obj (field _ _ _)) = true

-- `value is None`
abbrev pub is_null : Json → Bool
is_null null = true
is_null _ = false

-- `type(value).__name__`
unfoldable pub type_name : Json → String
type_name null = "NoneType"
type_name (bool _) = "bool"
type_name (int _) = "int"
type_name (float _ _ _) = "float"
type_name (str _) = "str"
type_name (arr _) = "list"
type_name (obj _) = "dict"

-- The number that a value is, as m / 2^k: a Boolean counts as 0 or 1.
unfoldable pub number : Json → Option (ℤ × ℕ)
number (bool false) = some (pos 0, 0)
number (bool true) = some (pos 1, 0)
number (int n) = some (n, 0)
number (float m k _) = some (m, k)
number _ = none

-- `a < b` on numbers
abbrev pub lt_number : ℤ × ℕ → ℤ × ℕ → Bool
lt_number (m, k) (n, j) = ltb_ℤ (scale m (2 ^ j)) (scale n (2 ^ k))

abbrev pub eq_number : ℤ × ℕ → ℤ × ℕ → Bool
eq_number (m, k) (n, j) = eqb_ℤ (scale m (2 ^ j)) (scale n (2 ^ k))

-- `repr(value)`
unfoldable mutual
  unfolding str_ℤ repr_str

  pub repr : Json → String
  repr null = "None"
  repr (bool true) = "True"
  repr (bool false) = "False"
  repr (int n) = str_ℤ n
  repr (float _ _ r) = r
  repr (str s) = repr_str s
  repr (arr vs) = "[" ⊕ repr_items vs ⊕ "]"
  repr (obj fs) = "{" ⊕ repr_fields fs ⊕ "}"

  repr_items : Items → String
  repr_items nil = ""
  repr_items (cons v nil) = repr v
  repr_items (cons v (cons w vs)) = repr v ⊕ ", " ⊕ repr_items (cons w vs)

  repr_fields : Fields → String
  repr_fields end = ""
  repr_fields (field k v end) = repr_str k ⊕ ": " ⊕ repr v
  repr_fields (field k v (field j w fs)) =
      repr_str k ⊕ ": " ⊕ repr v ⊕ ", " ⊕ repr_fields (field j w fs)

-- `str(value)`
unfoldable pub py_str : Json → String
unfolding repr
py_str (str s) = s
py_str v = repr v

-- `str(arguments.get(key))`, and the same in an f-string
unfoldable pub shown : Option Json → String
unfolding py_str
shown none = "None"
shown (some v) = py_str v
