-- ===== src/Core/Redaction.antt =====
-- `redact`, `truncate` and `is_sensitive_key` of app/core/security.py, and `_sanitise` of
-- app/services/audit_service.py. Lower case is that of ASCII.
pub mod Laws
use Prim.Native.Char.{code}
use Prim.Native.String
use mcp_business_assistant.Prelude.{
  ℕ, zero, suc, ◌+◌, ◌-◌, String, ◌==◌, Bool, true, false, ◌&&◌, ◌||◌, Option, none, some, List, [],
  ◌∷◌, any, map, ltb, leb, if◌then◌else◌,
}
use mcp_business_assistant.Prelude.Text.{◌⊕◌, strip, prefix, str_ℕ}
use mcp_business_assistant.Json.{
  Json, Items, Fields, null, bool, int, float, str, arr, obj, nil, cons, end, field,
}
use mcp_business_assistant.Core.Secrets.{redacted, redact_text}

-- `SENSITIVE_KEY_PARTS`
abbrev pub sensitive_key_parts : List String
sensitive_key_parts =
    "password" ∷ "passwd" ∷ "secret" ∷ "token" ∷ "api_key" ∷ "apikey" ∷ "api-key" ∷ "authorization"
    ∷ "auth" ∷ "credential" ∷ "private_key" ∷ "access_key" ∷ "session_id" ∷ "cookie" ∷ "signature"
    ∷ []

abbrev lower : ℕ → ℕ
lower n = if leb b'A' n && leb n b'Z' then n + 32 else n

abbrev dash_to_underscore : ℕ → ℕ
dash_to_underscore n = if n == b'-' then b'_' else n

unfoldable pub codes : String → List ℕ
codes String.[] = []
codes (String.◌∷◌ c s) = code c ∷ codes s

unfoldable pub starts : List ℕ → List ℕ → Bool
starts [] s = true
starts (p ∷ ps) [] = false
starts (p ∷ ps) (c ∷ s) = p == c && starts ps s

-- `part in text`
unfoldable pub occurs : List ℕ → List ℕ → Bool
unfolding starts
occurs part [] = starts part []
occurs part (c ∷ s) = starts part (c ∷ s) || occurs part s

unfoldable pub is_sensitive_key : String → Bool
unfolding codes occurs strip
is_sensitive_key key =
    let normalised = map dash_to_underscore (map lower (codes (strip key))) in
    any (λ part. occurs (map dash_to_underscore (codes part)) normalised) sensitive_key_parts

-- `_MAX_REDACT_DEPTH`
abbrev pub max_redact_depth : ℕ
max_redact_depth = 12

-- The test with which `redact` begins: the depth is bounded, whatever the value.
unfoldable pub cut : ℕ → Json → Json
cut depth v = if ltb max_redact_depth depth then str "[TRUNCATED]" else v

-- `redact`: the keys of a dict are texts.
unfoldable mutual
  pub redact : ℕ → Json → Json
  redact depth null = cut depth null
  redact depth (bool b) = cut depth (bool b)
  redact depth (int n) = cut depth (int n)
  redact depth (float m k r) = cut depth (float m k r)
  redact depth (str s) = cut depth (str (redact_text s))
  redact depth (arr vs) = cut depth (arr (redact_items (depth + 1) vs))
  redact depth (obj fs) = cut depth (obj (redact_fields (depth + 1) fs))

  pub redact_items : ℕ → Items → Items
  redact_items depth nil = nil
  redact_items depth (cons v vs) = cons (redact depth v) (redact_items depth vs)

  pub redact_fields : ℕ → Fields → Fields
  redact_fields depth end = end
  redact_fields depth (field k v fs) =
      field k (if is_sensitive_key k then str redacted else redact depth v) (redact_fields depth fs)

-- `truncate` of a text
unfoldable pub truncate_text : ℕ → String → String
truncate_text max_chars s =
    if ltb max_chars (String.count s)
    then prefix max_chars s ⊕ "...[truncated " ⊕ str_ℕ (String.count s - max_chars) ⊕ " chars]"
    else s

unfoldable pub truncate : ℕ → Json → Json
truncate max_chars (str s) = str (truncate_text max_chars s)
truncate max_chars v = v

-- `MAX_PAYLOAD_CHARS`
abbrev pub max_payload_chars : ℕ
max_payload_chars = 8000

unfoldable pub truncate_fields : Fields → Fields
truncate_fields end = end
truncate_fields (field k v fs) = field k (truncate max_payload_chars v) (truncate_fields fs)

-- `_sanitise`: redacting a dict at depth 0 gives a dict.
unfoldable pub sanitise : Option Fields → Option Fields
sanitise none = none
sanitise (some payload) = some (truncate_fields (redact_fields 1 payload))
