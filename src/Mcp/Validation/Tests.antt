-- ===== src/Mcp/Validation/Tests.antt =====
-- The validation of arguments on small schemas.
use mcp_business_assistant.Core.Redaction.Laws.{depth}
use mcp_business_assistant.Mcp.Validation.Raises.{Fails, validate_arguments-enough}
use mcp_business_assistant.Mcp.Validation.Typed.{IsGiven, IsTyped, validate_arguments-IsTyped}
use mcp_business_assistant.Prelude.{
  All, ◌⊎◌, true, ◌+◌, ◌≤◌, none, arith, ◌≡◌, refl, some, [], ◌∷◌, lookup,
}
use mcp_business_assistant.Prelude.Int.{pos}
use mcp_business_assistant.Prelude.Text.{repr_str, str_ℤ, str_ℕ}
use mcp_business_assistant.Json.{
  Fields, str, int, arr, obj, nil, cons, field, end, keys, entries, get, items, is_truthy, has_key,
  type_name, repr, number, py_str,
}
use mcp_business_assistant.Mcp.Validation.Values.{iterate}
use mcp_business_assistant.Mcp.Validation.{
  validate_arguments, missing_required, unknown_arguments, check_arguments, check_value,
  resolve_ref, check_plain, type_map, check_bounds,
}

-- `get_leads` of the CRM server: a limit from 1 to 100.
abbrev limit : Fields
limit =
    field "type" (str "integer")
      (field "minimum" (int (pos 1)) (field "maximum" (int (pos 100)) end))

abbrev properties : Fields
properties = field "limit" (obj limit) end

abbrev schema : Fields
schema = field "required" (arr (cons (str "limit") nil)) (field "properties" (obj properties) end)

abbrev arguments : Fields
arguments = field "limit" (int (pos 20)) end

fits : validate_arguments 2 schema arguments ≡ some []
unfolding validate_arguments missing_required unknown_arguments check_arguments check_value
    resolve_ref check_plain type_map check_bounds iterate get items is_truthy has_key lookup
    type_name number
fits = refl

too_large :
    validate_arguments 2 schema (field "limit" (int (pos 101)) end)
    ≡ some ("argument 'limit' must be <= 100" ∷ [])
unfolding validate_arguments missing_required unknown_arguments check_arguments check_value
    resolve_ref check_plain type_map check_bounds iterate get items is_truthy has_key lookup
    type_name number repr_str py_str repr str_ℤ str_ℕ
too_large = refl

required_names : iterate (arr (cons (str "limit") nil)) ≡ some (str "limit" ∷ [])
unfolding iterate items
required_names = refl

validate_arguments-IsTyped_example :
    All (IsGiven arguments) (str "limit" ∷ [])
    × ((properties ≡ end) ⊎ All (λ k. has_key k properties ≡ true) (keys arguments))
    × All (IsTyped properties) (entries arguments)
unfolding get is_truthy
validate_arguments-IsTyped_example =
    validate_arguments-IsTyped 2 schema arguments (str "limit" ∷ []) properties required_names refl
      fits

no_references : get "$defs" schema ≡ none
unfolding get
no_references = refl

shallow : depth (obj schema) ≤ 4
unfolding depth
shallow = omega arith

validate_arguments-enough_example :
    (validate_arguments (900 + 4) schema arguments ≡ validate_arguments 4 schema arguments)
    × (validate_arguments 4 schema arguments ≡ none → Fails schema arguments)
validate_arguments-enough_example =
    validate_arguments-enough schema 900 4 arguments no_references shallow
