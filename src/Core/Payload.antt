-- ===== src/Core/Payload.antt =====
-- Payload integrity, app/core/security.py: the canonical text of a payload and its digest.
use Prim.Native.Nat.{Ordering}
use Prim.Native.Char.{code}
use Prim.Native.String
use Prim.Native.String.{[], ◌∷◌}
use mathlib.Core.List.{List}
use mcp_business_assistant.Prelude.{
  ◌≡◌, refl, String, ◌==◌, Bool, true, false, map, ltb, str_eq, if◌then◌else◌,
}
use mcp_business_assistant.Prelude.Text.{◌⊕◌, str_ℤ, hex, join}
use mcp_business_assistant.Json.{
  Json, Items, Fields, null, bool, int, float, str, arr, obj, nil, cons, end, field,
}

-- The body of a JSON text, with the escapes of `json.dumps(…, ensure_ascii=False)`.
escape : String → String
unfolding hex
escape [] = ""
escape (c ∷ s) =
    let n = code c in
    let rest = escape s in
    if n == 34
    then "\\\"" ⊕ rest
    else if n == 0x5c
    then "\\\\" ⊕ rest
    else if n == 8
    then "\\b" ⊕ rest
    else if n == 12
    then "\\f" ⊕ rest
    else if n == 10
    then "\\n" ⊕ rest
    else if n == 13
    then "\\r" ⊕ rest
    else if n == 9
    then "\\t" ⊕ rest
    else if ltb n 32
    then "\\u" ⊕ hex 4 n ⊕ rest
    else c ∷ rest

unfoldable pub quoted : String → String
unfolding escape
quoted s = "\"" ⊕ escape s ⊕ "\""

-- `sort_keys`: the members in the order of their keys.
abbrev key_before : String → String → Bool
key_before a b = elim (String.compare a b) [ Ordering.lt ↦ true | _ ↦ false ]

unfoldable pub insert_member : String × String → List (String × String) → List (String × String)
insert_member e List.[] = List.◌∷◌ e List.[]
insert_member e (List.◌∷◌ f es) =
    let later = List.◌∷◌ f (insert_member e es) in
    if key_before f.0 e.0 then later else List.◌∷◌ e (List.◌∷◌ f es)

unfoldable pub sort_members : List (String × String) → List (String × String)
unfolding insert_member
sort_members List.[] = List.[]
sort_members (List.◌∷◌ e es) = insert_member e (sort_members es)

abbrev member : String × String → String
member (k, v) = quoted k ⊕ ":" ⊕ v

unfoldable pub object_text : List (String × String) → String
unfolding sort_members join quoted
object_text members = "{" ⊕ join "," (map member (sort_members members)) ⊕ "}"

-- `canonical_json`; the members of a dict are rendered and then put in order.
unfoldable mutual
  unfolding quoted object_text str_ℤ join

  pub canonical_json : Json → String
  canonical_json null = "null"
  canonical_json (bool true) = "true"
  canonical_json (bool false) = "false"
  canonical_json (int n) = str_ℤ n
  canonical_json (float _ _ r) = r
  canonical_json (str s) = quoted s
  canonical_json (arr vs) = "[" ⊕ join "," (element_texts vs) ⊕ "]"
  canonical_json (obj fs) = object_text (member_texts fs)

  pub element_texts : Items → List String
  element_texts nil = List.[]
  element_texts (cons v vs) = List.◌∷◌ (canonical_json v) (element_texts vs)

  pub member_texts : Fields → List (String × String)
  member_texts end = List.[]
  member_texts (field k v fs) = List.◌∷◌ (k, canonical_json v) (member_texts fs)

-- `sha256` is the hexadecimal digest of the UTF-8 bytes of a text.
module _ (sha256 : String → String) where
  unfoldable pub hash_payload : Json → String
  hash_payload payload = sha256 (canonical_json payload)

  -- `verify_payload`: `hmac.compare_digest` is equality.
  unfoldable pub verify_payload : Json → String → Bool
  verify_payload payload expected = str_eq (hash_payload payload) expected

canonical_json_test :
    canonical_json
      (obj (field "to" (arr (cons (str "a\"b") (cons null nil))) (field "cc" (bool true) end)))
    ≡ "{\"cc\":true,\"to\":[\"a\\\"b\",null]}"
unfolding canonical_json
canonical_json_test = refl
