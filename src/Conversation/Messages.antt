-- ===== src/Conversation/Messages.antt =====
-- The messages of app/providers/llm/base.py. `parse` is `json.loads`, with `none` for text that is
-- not JSON.
use mcp_business_assistant.Prelude.{String, Option, none, some, List, [], if◌then◌else◌}
use mcp_business_assistant.Prelude.Text.{◌⊕◌, is_empty_text, prefix}
use mcp_business_assistant.Enums.{is_high_risk}
use mcp_business_assistant.Mcp.Types.{ToolSpec}
use mcp_business_assistant.Json.{Json, Fields, str, obj, field, end}

pub data LlmRole : Type 0 where
  system user assistant tool : LlmRole

pub record LlmToolCall : Type 0 where
  pub id : String
  pub name : String
  pub arguments : Fields

pub record LlmMessage : Type 0 where
  pub role : LlmRole
  pub content : Option String
  pub tool_calls : List LlmToolCall
  pub tool_call_id : Option String
  pub name : Option String

abbrev parsed_arguments : String → Option Json → Fields
parsed_arguments raw none = field "__malformed_arguments__" (str raw) end
parsed_arguments raw (some (obj fs)) = fs
parsed_arguments raw (some v) = field "value" v end

abbrev raw_arguments : (String → Option Json) → Option String → Fields
raw_arguments parse none = end
raw_arguments parse (some raw) = if is_empty_text raw then end else parsed_arguments raw (parse raw)

-- `LLMToolCall.from_json_arguments`
unfoldable pub from_json_arguments :
    (String → Option Json) → String → String → Option String → LlmToolCall
from_json_arguments parse call_id name raw = record {
  id = call_id;
  name = name;
  arguments = raw_arguments parse raw;
}

-- `LLMMessage.system`, `user`, `assistant` and `tool`
abbrev pub plain_message : LlmRole → Option String → List LlmToolCall → LlmMessage
plain_message role content tool_calls = record {
  role = role;
  content = content;
  tool_calls = tool_calls;
  tool_call_id = none;
  name = none;
}

abbrev pub system_message : String → LlmMessage
system_message content = plain_message LlmRole.system (some content) []

abbrev pub user_message : String → LlmMessage
user_message content = plain_message LlmRole.user (some content) []

abbrev pub assistant_message : Option String → List LlmToolCall → LlmMessage
assistant_message content tool_calls = plain_message LlmRole.assistant content tool_calls

abbrev pub tool_message : String → String → String → LlmMessage
tool_message call_id name content = record {
  role = LlmRole.tool;
  content = some content;
  tool_calls = [];
  tool_call_id = some call_id;
  name = some name;
}

-- `LLMResponse`, of which the finish reason, the model and the usage decide nothing.
pub record LlmResponse : Type 0 where
  pub content : Option String
  pub tool_calls : List LlmToolCall

-- `tool_spec_to_openai_schema`
unfoldable pub tool_spec_to_openai_schema : ToolSpec → Json
unfolding prefix
tool_spec_to_openai_schema spec =
    let description =
      if is_high_risk spec.permission
      then spec.description ⊕ " (Requires explicit human approval before it will run.)"
      else spec.description in
    let parameters : Fields = elim spec.input_schema [
      | end ↦ field "type" (str "object") (field "properties" (obj end) end)
      | field k v fs ↦ field k v fs
    ] in
    obj (
      field "type" (str "function") (
        field "function"
          (obj (
            field "name" (str spec.qualified_name) (
              field "description" (str (prefix 1024 description))
                (field "parameters" (obj parameters) end))))
          end))
