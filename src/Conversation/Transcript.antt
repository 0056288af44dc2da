-- ===== src/Conversation/Transcript.antt =====
-- The transcript of a conversation: the rows of `messages`, with the operations of
-- app/repositories/conversation_repository.py and app/services/conversation_service.py on them.
-- The column `tool_calls` holds what `add_assistant_message` writes; the ids and the timestamps of
-- rows are left out.
use mcp_business_assistant.Prelude.{
  ℕ, ◌+◌, ltb, ◌==◌, String, Bool, true, false, not, ◌&&◌, Option, none, some, List, [], ◌∷◌, ◌++◌,
  map, keep, any, take, if◌then◌else◌,
}
use mcp_business_assistant.Prelude.Int.{pos}
use mcp_business_assistant.Prelude.Text.{is_empty_text, or_text}
use mcp_business_assistant.Enums.{MessageRole}
use mcp_business_assistant.Json.{Fields, obj, bool, int, field, end}
use mcp_business_assistant.Json.Dumps.{dumps}
use mcp_business_assistant.Mcp.Types.{ToolResult}
use mcp_business_assistant.Approval.Repository.{clamp_limit}
use mcp_business_assistant.Conversation.Messages.{LlmRole, LlmToolCall, LlmMessage}
use mcp_business_assistant.Conversation.History.{repair_dangling_tool_messages}

pub record Message : Type 0 where
  pub conversation_id : ℕ
  pub sequence : ℕ
  pub role : MessageRole
  pub content : Option String
  pub tool_calls : Option (List LlmToolCall)
  pub tool_call_id : Option String
  pub tool_name : Option String
  pub extra_metadata : Option Fields

-- `coalesce(max(sequence), 0)` of a conversation
unfoldable pub max_sequence : ℕ → List Message → ℕ
max_sequence conversation_id [] = 0
max_sequence conversation_id (m ∷ ms) =
    let rest = max_sequence conversation_id ms in
    if m.conversation_id == conversation_id && ltb rest m.sequence then m.sequence else rest

unfoldable pub next_sequence : ℕ → List Message → ℕ
unfolding max_sequence
next_sequence conversation_id messages = max_sequence conversation_id messages + 1

abbrev pub same_slot : Message → Message → Bool
same_slot a b = a.conversation_id == b.conversation_id && a.sequence == b.sequence

-- The flush of a new row; `none` is the violation of the unique index.
unfoldable pub insert_message : Message → List Message → Option (List Message)
insert_message message messages =
    if any (same_slot message) messages then none else some (messages ++ message ∷ [])

-- The row that `add_message` makes: its number is from the rows that were read.
unfoldable pub new_message :
    List Message
    → ℕ
    → MessageRole
    → Option String
    → Option (List LlmToolCall)
    → Option String
    → Option String
    → Option Fields
    → Message
unfolding next_sequence
new_message read conversation_id role content tool_calls tool_call_id tool_name metadata = record {
  conversation_id = conversation_id;
  sequence = next_sequence conversation_id read;
  role = role;
  content = content;
  tool_calls = tool_calls;
  tool_call_id = tool_call_id;
  tool_name = tool_name;
  extra_metadata = metadata;
}

-- `add_message`: other sessions may have added rows before the row is written.
unfoldable pub add_message :
    List Message
    → ℕ
    → MessageRole
    → Option String
    → Option (List LlmToolCall)
    → Option String
    → Option String
    → Option Fields
    → List Message
    → Option (List Message)
unfolding new_message insert_message
add_message read conversation_id role content tool_calls tool_call_id tool_name metadata messages =
    insert_message
      (new_message read conversation_id role content tool_calls tool_call_id tool_name metadata)
      messages

unfoldable pub add_user_message : List Message → ℕ → String → List Message → Option (List Message)
add_user_message read conversation_id content messages =
    add_message read conversation_id MessageRole.user (some content) none none none none messages

-- `[…] or None`
abbrev or_none : List LlmToolCall → Option (List LlmToolCall)
or_none [] = none
or_none (call ∷ calls) = some (call ∷ calls)

unfoldable pub add_assistant_message :
    List Message
    → ℕ
    → Option String
    → List LlmToolCall
    → Option Fields
    → List Message
    → Option (List Message)
add_assistant_message read conversation_id content tool_calls metadata messages =
    add_message read conversation_id MessageRole.assistant content (or_none tool_calls) none none
      metadata messages

abbrev failure_text : Bool → Option String → String
failure_text true error = ""
failure_text false error = or_text error "The tool failed."

-- `_render_tool_content`
unfoldable pub render_tool_content : ToolResult → String
render_tool_content result = elim result.structured_content [
  | some structured ↦ dumps (obj structured)
  | none ↦
      if is_empty_text result.content
      then failure_text result.success result.error
      else result.content
]

unfoldable pub add_tool_result :
    List Message → ℕ → ToolResult → List Message → Option (List Message)
add_tool_result read conversation_id result messages =
    add_message read conversation_id MessageRole.tool (some (render_tool_content result)) none
      (some result.tool_call_id) (some result.tool_name)
      (some (
        field "success" (bool result.success)
          (field "duration_ms" (int (pos result.duration_ms)) end)))
      messages

-- The rows of a conversation, the last sequence first.
unfoldable pub insert_latest : Message → List Message → List Message
insert_latest m [] = m ∷ []
insert_latest m (n ∷ ns) =
    let later = n ∷ insert_latest m ns in if ltb m.sequence n.sequence then later else m ∷ n ∷ ns

unfoldable pub latest_first : List Message → List Message
unfolding insert_latest
latest_first [] = []
latest_first (m ∷ ms) = insert_latest m (latest_first ms)

unfoldable pub reversed : List Message → List Message
reversed [] = []
reversed (m ∷ ms) = reversed ms ++ m ∷ []

unfoldable pub list_messages : ℕ → Option ℕ → List Message → List Message
unfolding latest_first reversed
list_messages conversation_id limit messages = reversed (
    take (clamp_limit limit 50)
      (latest_first (keep (λ (m : Message). m.conversation_id == conversation_id) messages)))

abbrev llm_role : MessageRole → LlmRole
llm_role MessageRole.system = LlmRole.system
llm_role MessageRole.user = LlmRole.user
llm_role MessageRole.assistant = LlmRole.assistant
llm_role MessageRole.tool = LlmRole.tool

abbrev listed_calls : Option (List LlmToolCall) → List LlmToolCall
listed_calls none = []
listed_calls (some calls) =
    keep (λ (c : LlmToolCall). not (is_empty_text c.id) && not (is_empty_text c.name)) calls

-- `_to_llm_message`
unfoldable pub to_llm_message : Message → LlmMessage
to_llm_message row = record {
  role = llm_role row.role;
  content = row.content;
  tool_calls = listed_calls row.tool_calls;
  tool_call_id = row.tool_call_id;
  name = row.tool_name;
}

-- `limit or agent_history_limit`
abbrev limit_or : Option ℕ → ℕ → ℕ
limit_or none default = default
limit_or (some n) default = if n == 0 then default else n

-- `load_history`
unfoldable pub load_history : ℕ → ℕ → Option ℕ → List Message → List LlmMessage
unfolding list_messages to_llm_message
load_history history_limit conversation_id limit messages = repair_dangling_tool_messages (
    map to_llm_message
      (list_messages conversation_id (some (limit_or limit history_limit)) messages))
