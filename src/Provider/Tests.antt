-- ===== src/Provider/Tests.antt =====
-- A request to the rule-based provider, and the theorems applied to it.
use mcp_business_assistant.Prelude.{
  ◌≤◌, ◌<◌, String, ◌≡◌, refl, ◌⊎◌, true, false, Option, none, some, List, [], ◌∷◌, ◌++◌, any,
  str_eq,
}
use mcp_business_assistant.Prelude.Int.{pos}
use mcp_business_assistant.Prelude.Text.{str_ℕ}
use mcp_business_assistant.Prelude.Regex.{plain, found, one_of}
use mcp_business_assistant.Enums.{PermissionLevel, read, high_risk}
use mcp_business_assistant.Errors.{ok}
use mcp_business_assistant.Json.{Json, str, int, field, end, has_key, keys}
use mcp_business_assistant.Mcp.Types.{ToolSpec}
use mcp_business_assistant.Conversation.Messages.{
  LlmMessage, LlmToolCall, LlmResponse, user_message,
}
use mcp_business_assistant.Provider.Heuristic.Arguments.{lead_status_filter, first_word}
use mcp_business_assistant.Provider.Heuristic.Intents.{intents, first_match}
use mcp_business_assistant.Provider.Heuristic.Turn.{answered}
use mcp_business_assistant.Provider.Heuristic.{
  complete, offered, collect_tool_results, collect_from, current_turn, latest_user_text, step_of,
  next_step, drop_nulls, latest_user_text_from,
}
use mcp_business_assistant.Provider.Heuristic.Planning.{complete-calls, complete-shrinks, turn_left}

abbrev tool : String → PermissionLevel → ToolSpec
tool name level = record {
  qualified_name = name;
  name = name;
  server = "test";
  description = "A tool";
  input_schema = end;
  permission = level;
  output_schema = none;
  title = none;
  server_read_only_hint = none;
  server_destructive_hint = none;
}

abbrev tools : Option (List ToolSpec)
tools = some (tool "crm__get_leads" read ∷ tool "email__send_email" high_risk ∷ [])

abbrev messages : List LlmMessage
messages = user_message "Send a follow-up email to qualified leads" ∷ []

abbrev parse : String → Option Json
parse text = none

abbrev call : LlmToolCall
call = record {
  id = "heuristic_0_crm__get_leads";
  name = "crm__get_leads";
  arguments = field "status" (str "qualified") (field "limit" (int (pos 25)) end);
}

abbrev response : LlmResponse
response = record { content = none; tool_calls = call ∷ [] }

complete_test : complete parse 1709209800000000 messages tools ≡ ok response
unfolding complete latest_user_text latest_user_text_from step_of first_match intents found plain
    one_of next_step collect_tool_results collect_from current_turn has_key lead_status_filter
    first_word drop_nulls str_ℕ keys
complete_test = refl

complete-calls_example :
    ((text : String) × (response.content ≡ some text) × (response.tool_calls ≡ []))
    ⊎ ((c : LlmToolCall) × (response.content ≡ none)
        × (response.tool_calls ≡ c ∷ [])
        × (any (str_eq c.name) (offered tools) ≡ true)
        × (has_key c.name (collect_tool_results parse messages) ≡ false))
complete-calls_example = complete-calls parse 1709209800000000 messages tools response complete_test

complete-shrinks_example :
    (turn_left parse (messages ++ answered call "{\"leads\": []}") tools
      < turn_left parse messages tools)
    × (turn_left parse messages tools ≤ 3)
complete-shrinks_example =
    complete-shrinks parse 1709209800000000 messages tools response call "{\"leads\": []}"
      complete_test refl
