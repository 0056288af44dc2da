-- ===== src/Mcp/Types.antt =====
-- app/mcp/types.py: qualified tool names, tool specifications, calls and results.
pub mod Names
use Prim.Native.Char.{Char}
use Prim.Native.String
use Prim.Native.String.{[], ◌∷◌}
use Prim.Native.Char.{code as char_code}
use mcp_business_assistant.Prelude.{
  ℕ, String, ◌==◌, Bool, true, false, not, ◌&&◌, ◌||◌, Option, none, some, if◌then◌else◌,
}
use mcp_business_assistant.Prelude.Text.{◌⊕◌, is_empty_text}
use mcp_business_assistant.Enums.{PermissionLevel, is_read}
use mcp_business_assistant.Prelude.Int.{pos}
use mcp_business_assistant.Json.{Json, Fields, bool, int, str, obj, field, end}

-- `NAME_SEPARATOR`
abbrev pub name_separator : String
name_separator = "__"

unfoldable pub qualify : String → String → String
qualify server tool = server ⊕ name_separator ⊕ tool

abbrev is_underscore : Char → Bool
is_underscore c = char_code c == b'_'

abbrev prepend : Char → Option (String × String) → Option (String × String)
prepend c none = none
prepend c (some (head, tail)) = some (c ∷ head, tail)

-- `name.partition("__")`: the parts round the first separator, or `none` where there is none.
unfoldable pub partition : String → Option (String × String)
partition [] = none
partition (c ∷ []) = none
partition (c ∷ (d ∷ s)) =
    let rest = prepend c (partition (d ∷ s)) in
    if is_underscore c && is_underscore d then some ("", s) else rest

abbrev nonempty_parts : Option (String × String) → Option (String × String)
nonempty_parts none = none
nonempty_parts (some (server, tool)) =
    if is_empty_text server || is_empty_text tool then none else some (server, tool)

-- `none` is the `ValueError` of a name that is not qualified.
unfoldable pub split_qualified : String → Option (String × String)
unfolding partition
split_qualified name = nonempty_parts (partition name)

pub record ToolSpec : Type 0 where
  pub qualified_name : String
  pub name : String
  pub server : String
  pub description : String
  pub input_schema : Fields
  pub permission : PermissionLevel
  pub output_schema : Option Fields
  pub title : Option String
  pub server_read_only_hint : Option Bool
  pub server_destructive_hint : Option Bool

-- `bool(hint)` of an optional flag
abbrev pub is_set : Option Bool → Bool
is_set none = false
is_set (some b) = b

unfoldable pub hint_conflicts_with_policy : ToolSpec → Bool
hint_conflicts_with_policy spec = is_set spec.server_read_only_hint && not (is_read spec.permission)

pub record ToolCall : Type 0 where
  pub id : String
  pub tool_name : String
  pub arguments : Fields

-- `duration_ms` is a count of some unit of time.
pub record ToolResult : Type 0 where
  pub tool_call_id : String
  pub tool_name : String
  pub success : Bool
  pub content : String
  pub structured_content : Option Fields
  pub error : Option String
  pub duration_ms : ℕ
  pub server : Option String

abbrev first_part : Option (String × String) → Option String
first_part none = none
first_part (some (server, _)) = some server

-- `_safe_server`
unfoldable pub safe_server : String → Option String
unfolding split_qualified
safe_server name = first_part (split_qualified name)

-- `ToolResult.ok`
unfoldable pub ok_result : ToolCall → String → Option Fields → ℕ → ToolResult
ok_result call content structured duration = record {
  tool_call_id = call.id;
  tool_name = call.tool_name;
  success = true;
  content = content;
  structured_content = structured;
  error = none;
  duration_ms = duration;
  server = safe_server call.tool_name;
}

-- `ToolResult.failure`
unfoldable pub failure_result : ToolCall → String → ℕ → ToolResult
failure_result call message duration = record {
  tool_call_id = call.id;
  tool_name = call.tool_name;
  success = false;
  content = message;
  structured_content = none;
  error = some message;
  duration_ms = duration;
  server = safe_server call.tool_name;
}

-- `structured_content`, or the text where there is none
abbrev result_field : Option Fields → String → Fields → Fields
result_field (some structured) content rest = field "result" (obj structured) rest
result_field none content rest =
    if is_empty_text content then rest else field "result" (str content) rest

abbrev error_field : Option String → Fields
error_field none = end
error_field (some message) = if is_empty_text message then end else field "error" (str message) end

-- `to_payload`
unfoldable pub to_payload : ToolResult → Fields
to_payload result = field "tool" (str result.tool_name) (
    field "success" (bool result.success) (
      field "duration_ms" (int (pos result.duration_ms))
        (result_field result.structured_content result.content (error_field result.error))))
