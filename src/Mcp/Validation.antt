-- ===== src/Mcp/Validation.antt =====
-- app/mcp/validation.py: the check of arguments against the schema of a tool. `none` is an
-- exception that a schema of another shape leads to. The first number of `check_value` bounds the
-- depth of the recursion, and at its end stands Python's `RecursionError`.
pub mod Values
pub mod Laws
pub mod Typed
pub mod Recursion
pub mod Depth
pub mod Raises
mod Tests
use Prim.Native.String
use mcp_business_assistant.Prelude.{
  ℕ, zero, suc, String, Bool, true, false, not, ◌&&◌, ◌||◌, Option, none, some, List, [], ◌∷◌, ◌++◌,
  map, all, is_empty, if◌then◌else◌, str_eq, Dict, lookup,
}
use mcp_business_assistant.Prelude.Int.{ℤ, pos}
use mcp_business_assistant.Prelude.Text.{◌⊕◌, repr_str, join}
use mcp_business_assistant.Json.{
  Json, Items, Fields, null, bool, int, float, str, arr, obj, nil, cons, end, field, get, has_key,
  items, is_null, type_name, number, lt_number, repr, py_str,
}
use mcp_business_assistant.Mcp.Validation.Values.{
  ◌>>=◌, is_bool, is_hashable, iterate, starts_with, remove_prefix, contained, or_value, size,
}

abbrev dict_or : Fields → Option Json → Fields
dict_or d (some (obj fs)) = fs
dict_or d _ = d

-- `(root.get("$defs") or {}).get(name)`
abbrev definition_of : String → Json → Option (Option Json)
definition_of name (obj defs) = some (get name defs)
definition_of name _ = none

abbrev pub follow : Fields → Fields → Option Json → Option Fields
follow root d (some (str ref)) =
    if starts_with "#/$defs/" ref
    then (do
      found ← definition_of (remove_prefix "#/$defs/" ref) (or_value (get "$defs" root) (obj end))
      some (dict_or d found))
    else some d
follow root d _ = some d

-- `_resolve_ref`
unfoldable pub resolve_ref : Fields → Json → Option Fields
resolve_ref root (obj d) = follow root d (get "$ref" d)
resolve_ref root _ = none

-- `_TYPE_MAP`: whether a value has the named type. In Python a Boolean is an `int`.
unfoldable pub type_map : Dict (Json → Bool)
type_map =
    ("string", λ v. str_eq (type_name v) "str")
    ∷ ("integer", λ v. str_eq (type_name v) "int" || is_bool v)
    ∷ ("number", λ v. str_eq (type_name v) "int" || is_bool v || str_eq (type_name v) "float")
    ∷ ("boolean", is_bool)
    ∷ ("array", λ v. str_eq (type_name v) "list")
    ∷ ("object", λ v. str_eq (type_name v) "dict")
    ∷ ("null", is_null)
    ∷ []

abbrev named : String → String → String
named name text = "argument " ⊕ repr_str name ⊕ text

abbrev type_problem : String → Json → String → Option (Json → Bool) → Option String
type_problem name value expected none = none
type_problem name value expected (some accepted) =
    if is_bool value && (str_eq expected "integer" || str_eq expected "number")
    then some (named name (" must be a " ⊕ expected ⊕ ", got a boolean"))
    else if not (accepted value)
    then some (named name (" must be a " ⊕ expected ⊕ ", got " ⊕ type_name value))
    else none

-- The test of `type`
abbrev pub check_type : String → Json → Option Json → Option String
check_type name value (some (str expected)) =
    type_problem name value expected (lookup expected type_map)
check_type name value _ = none

-- The test of `enum`
abbrev pub check_enum : String → Json → Option Json → Option (Option String)
check_enum name value none = some none
check_enum name value (some null) = some none
check_enum name value (some enum) = do
  inside ← contained value enum
  options ← iterate enum
  some (
      if inside
      then none
      else some (named name (" must be one of: " ⊕ join ", " (map repr options))))

-- One bound, by the comparison that breaks it.
abbrev check_bound : (ℤ × ℕ → Bool) → (String → String) → Option Json → Option (List String)
check_bound broken message none = some []
check_bound broken message (some null) = some []
check_bound broken message (some bound) = do
  q ← number bound
  some (if broken q then message (py_str bound) ∷ [] else [])

abbrev two_bounds :
    String
    → ℤ × ℕ
    → Option Json
    → (String → String)
    → Option Json
    → (String → String)
    → Option (List String)
two_bounds name v low below high above = do
  p ← check_bound (λ q. lt_number v q) (λ b. named name (below b)) low
  q ← check_bound (λ q. lt_number q v) (λ b. named name (above b)) high
  some (p ++ q)

-- The bounds of a number, a text and a list
unfoldable pub check_bounds : String → Json → Fields → Option (List String)
check_bounds name (int n) d =
    two_bounds name (n, 0) (get "minimum" d) (λ b. " must be >= " ⊕ b) (get "maximum" d)
      (λ b. " must be <= " ⊕ b)
check_bounds name (float m k r) d =
    two_bounds name (m, k) (get "minimum" d) (λ b. " must be >= " ⊕ b) (get "maximum" d)
      (λ b. " must be <= " ⊕ b)
check_bounds name (str s) d =
    two_bounds name (pos (String.count s), 0) (get "minLength" d)
      (λ b. " must be at least " ⊕ b ⊕ " characters") (get "maxLength" d)
      (λ b. " must be at most " ⊕ b ⊕ " characters")
check_bounds name (arr vs) d =
    two_bounds name (pos (size vs), 0) (get "minItems" d)
      (λ b. " must contain at least " ⊕ b ⊕ " item(s)") (get "maxItems" d)
      (λ b. " must contain at most " ⊕ b ⊕ " item(s)")
check_bounds name _ d = some []

-- A definition without alternatives
unfoldable pub check_plain : String → Json → Fields → Option (List String)
unfolding type_map
check_plain name value d = do
  outside ← check_enum name value (get "enum" d)
  elim outside [
    | some problem ↦ some (problem ∷ [])
    | none ↦ elim (check_type name value (get "type" d)) [
      | some problem ↦ some (problem ∷ [])
      | none ↦ check_bounds name value d
    ]
  ]

-- Whether one of the branches has no problem; the rest is not looked at.
unfoldable pub any_branch : (Json → Option (List String)) → List Json → Option Bool
any_branch check [] = some false
any_branch check (branch ∷ branches) = do
  problems ← check branch
  elim (is_empty problems) [ true ↦ some true | false ↦ any_branch check branches ]

-- `str(_resolve_ref(branch, root).get("type", "?"))`
abbrev type_text : Option Json → String
type_text none = "?"
type_text (some v) = py_str v

unfoldable pub type_texts : Fields → List Json → Option (List String)
unfolding resolve_ref
type_texts root [] = some []
type_texts root (branch ∷ branches) = do
  d ← resolve_ref root branch
  rest ← type_texts root branches
  some (type_text (get "type" d) ∷ rest)

abbrev no_branch : String → List String → List String
no_branch name types =
    named name (" does not match any accepted type (" ⊕ join ", " types ⊕ ")") ∷ []

abbrev pub branches_of : Fields → Option (List Json)
branches_of d = iterate (or_value (get "anyOf" d) (or_value (get "oneOf" d) (arr nil)))

-- `_check_value`
unfoldable pub check_value : ℕ → Fields → String → Json → Json → Option (List String)
unfolding resolve_ref
check_value zero root name value definition = none
check_value (suc n) root name value definition = do
  d ← resolve_ref root definition
  elim (has_key "anyOf" d || has_key "oneOf" d) [
    | false ↦ check_plain name value d
    | true ↦ do
      branches ← branches_of d
      fits ←
          any_branch
            (λ branch. do
              resolved ← resolve_ref root branch
              check_value n root name value (obj resolved))
            branches
      elim fits [
        | true ↦ some []
        | false ↦ do types ← type_texts root branches; some (no_branch name types)
      ]
  ]

-- `name not in arguments or arguments[name] is None`
abbrev pub is_absent : Option Json → Bool
is_absent none = true
is_absent (some v) = is_null v

abbrev pub absent : Json → Fields → Option Bool
absent (arr _) arguments = none
absent (obj _) arguments = none
absent (str k) arguments = some (is_absent (get k arguments))
absent _ arguments = some true

unfoldable pub missing_required : List Json → Fields → Option (List String)
missing_required [] arguments = some []
missing_required (name ∷ names) arguments = do
  gone ← absent name arguments
  rest ← missing_required names arguments
  some (if gone then ("missing required argument " ⊕ repr name) ∷ rest else rest)

-- The names of arguments that `properties` does not have; with no properties, none is unknown.
unfoldable pub unknown_arguments : Fields → Fields → List String
unknown_arguments end arguments = []
unknown_arguments properties end = []
unknown_arguments properties (field k v arguments) =
    let rest = unknown_arguments properties arguments in
    if has_key k properties then rest else ("unknown argument " ⊕ repr_str k) ∷ rest

abbrev pub check_argument : ℕ → Fields → String → Json → Option Json → Option (List String)
check_argument stack schema k v none = some []
check_argument stack schema k v (some definition) =
    if is_null definition || is_null v then some [] else check_value stack schema k v definition

unfoldable pub check_arguments : ℕ → Fields → Fields → Fields → Option (List String)
unfolding check_value
check_arguments stack schema properties end = some []
check_arguments stack schema properties (field k v arguments) = do
  p ← check_argument stack schema k v (get k properties)
  rest ← check_arguments stack schema properties arguments
  some (p ++ rest)

abbrev no_arguments : Fields → Bool
no_arguments end = true
no_arguments _ = false

-- The loops over the arguments, by what `properties` is
abbrev pub check_against : ℕ → Fields → Fields → Json → Option (List String)
check_against stack schema arguments (obj properties) = do
  problems ← check_arguments stack schema properties arguments
  some (unknown_arguments properties arguments ++ problems)
check_against stack schema arguments (arr vs) =
    if all is_hashable (items vs) && no_arguments arguments then some [] else none
check_against stack schema arguments (str s) = if no_arguments arguments then some [] else none
check_against stack schema arguments _ = none

-- `validate_arguments`; `stack` is the depth of the recursion that the interpreter allows.
unfoldable pub validate_arguments : ℕ → Fields → Fields → Option (List String)
unfolding missing_required check_arguments unknown_arguments
validate_arguments stack schema arguments = do
  required ← iterate (or_value (get "required" schema) (arr nil))
  missing ← missing_required required arguments
  problems ← check_against stack schema arguments (or_value (get "properties" schema) (obj end))
  some (missing ++ problems)
