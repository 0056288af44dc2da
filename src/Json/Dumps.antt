-- ===== src/Json/Dumps.antt =====
-- `json.dumps` with its default settings, as the conversation uses it: the members in their order,
-- and only ASCII in the text.
use Prim.Native.Char.{code}
use Prim.Native.String.{[], ◌∷◌}
use mathlib.Core.List.{List}
use mcp_business_assistant.Prelude.{
  ℕ, ◌+◌, ◌-◌, ◌/◌, ◌%◌, String, ◌==◌, true, false, ltb, if◌then◌else◌, ◌≡◌, refl,
}
use mcp_business_assistant.Prelude.Text.{◌⊕◌, hex, join, str_ℤ}
use mcp_business_assistant.Json.{
  Json, Items, Fields, null, bool, int, float, str, arr, obj, nil, cons, end, field,
}

abbrev unit : ℕ → String
unit n = "\\u" ⊕ hex 4 n

-- A character outside ASCII is one or two UTF-16 units.
escape_wide : ℕ → String
unfolding hex
escape_wide n =
    if ltb n 0x10000
    then unit n
    else unit (0xd800 + (n - 0x10000) / 1024) ⊕ unit (0xdc00 + (n - 0x10000) % 1024)

escape_ascii : String → String
unfolding escape_wide
escape_ascii [] = ""
escape_ascii (c ∷ s) =
    let n = code c in
    let rest = escape_ascii s in
    if n == 34
    then "\\\"" ⊕ rest
    else if n == 0x5c
    then "\\\\" ⊕ rest
    else if n == 8
    then "\\b" ⊕ rest
    else if n == 12
    then "\\f" ⊕ rest
    else if n == 10
    then "\\n" ⊕ rest
    else if n == 13
    then "\\r" ⊕ rest
    else if n == 9
    then "\\t" ⊕ rest
    else if ltb n 32
    then escape_wide n ⊕ rest
    else if ltb 126 n
    then escape_wide n ⊕ rest
    else c ∷ rest

unfoldable quoted_ascii : String → String
unfolding escape_ascii
quoted_ascii s = "\"" ⊕ escape_ascii s ⊕ "\""

unfoldable mutual
  unfolding quoted_ascii str_ℤ join

  pub dumps : Json → String
  dumps null = "null"
  dumps (bool true) = "true"
  dumps (bool false) = "false"
  dumps (int n) = str_ℤ n
  dumps (float _ _ r) = r
  dumps (str s) = quoted_ascii s
  dumps (arr vs) = "[" ⊕ join ", " (dump_items vs) ⊕ "]"
  dumps (obj fs) = "{" ⊕ join ", " (dump_fields fs) ⊕ "}"

  dump_items : Items → List String
  dump_items nil = List.[]
  dump_items (cons v vs) = List.◌∷◌ (dumps v) (dump_items vs)

  dump_fields : Fields → List String
  dump_fields end = List.[]
  dump_fields (field k v fs) = List.◌∷◌ (quoted_ascii k ⊕ ": " ⊕ dumps v) (dump_fields fs)

dumps_test :
    dumps (obj (field "a" (str "é\n😀") (field "b" (arr (cons null (cons (bool true) nil))) end)))
    ≡ "{\"a\": \"\\u00e9\\n\\ud83d\\ude00\", \"b\": [null, true]}"
unfolding dumps
dumps_test = refl
