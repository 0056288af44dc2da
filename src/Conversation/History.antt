-- ===== src/Conversation/History.antt =====
-- `_repair_dangling_tool_messages` of app/services/conversation_service.py.
use mcp_business_assistant.Prelude.{
  String, Bool, true, false, not, ◌&&◌, Option, none, some, List, [], ◌∷◌, ◌++◌, map, any, str_eq,
}
use mcp_business_assistant.Prelude.Text.{is_empty_text}
use mcp_business_assistant.Conversation.Messages.{assistant, tool, LlmToolCall, LlmMessage}

abbrev pub call_ids : LlmMessage → List String
call_ids message = map (λ (call : LlmToolCall). call.id) message.tool_calls

-- `id and id in known_call_ids`; the set is a list.
abbrev pub is_known : Option String → List String → Bool
is_known none known = false
is_known (some id) known = not (is_empty_text id) && any (str_eq id) known

-- Whether a message is kept.
unfoldable pub admits : List String → LlmMessage → Bool
admits known message = elim message.role [ tool ↦ is_known message.tool_call_id known | _ ↦ true ]

-- The ids that are known after a message.
unfoldable pub known_after : List String → LlmMessage → List String
known_after known message = elim message.role [ assistant ↦ known ++ call_ids message | _ ↦ known ]

abbrev pub kept : Bool → LlmMessage → List LlmMessage → List LlmMessage
kept true message rest = message ∷ rest
kept false message rest = rest

-- The loop, with the ids that are known so far.
unfoldable pub repair_from : List String → List LlmMessage → List LlmMessage
repair_from known [] = []
repair_from known (message ∷ messages) =
    kept (admits known message) message (repair_from (known_after known message) messages)

unfoldable pub repair_dangling_tool_messages : List LlmMessage → List LlmMessage
unfolding repair_from
repair_dangling_tool_messages messages = repair_from [] messages
