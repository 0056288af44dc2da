-- ===== src/Core/Tests.antt =====
-- The redaction theorems applied to a payload with a secret in it.
use mcp_business_assistant.Prelude.{◌≤◌, ◌≡◌, some}
use mcp_business_assistant.Json.{Fields, str, arr, obj, cons, nil, field, end, keys}
use mcp_business_assistant.Core.Redaction.{redact, sanitise}
use mcp_business_assistant.Core.Redaction.Laws.{
  IsClean, HasClean, depth, redact_safe, sanitise_safe,
}

abbrev payload : Fields
payload =
    field "user" (str "ada")
      (field "nested" (arr (cons (obj (field "api_key" (str "abc") end)) nil)) end)

redact_safe_example : IsClean (redact 0 (obj payload)) × (depth (redact 0 (obj payload)) ≤ 13)
redact_safe_example = redact_safe (obj payload)

sanitise_safe_example :
    (stored : Fields) × (sanitise (some payload) ≡ some stored)
    × HasClean stored
    × (keys stored ≡ keys payload)
sanitise_safe_example = sanitise_safe payload
