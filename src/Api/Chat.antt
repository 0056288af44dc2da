-- ===== src/Api/Chat.antt =====
-- app/api/routes/chat.py, with its bodies from app/models/schemas/api.py; the duration is left out.
use mcp_business_assistant.Prelude.{
  ℕ, ◌+◌, String, Bool, ◌||◌, Option, none, some, List, if◌then◌else◌, str_eq,
}
use mcp_business_assistant.Prelude.Text.{str_uuid}
use mcp_business_assistant.Errors.{Result}
use mcp_business_assistant.Json.{Fields}
use mcp_business_assistant.Database.{User}
use mcp_business_assistant.Conversation.Ownership.{Conversation, get_or_create}
use mcp_business_assistant.Agent.State.{PendingApproval, status_value}
use mcp_business_assistant.Agent.World.{AgentDependencies, World, Run, pure, ◌>>=◌, ◌>>◌}
use mcp_business_assistant.Agent.Runner.{AgentRunResult, approval_required, set_status, run_agent}
use mcp_business_assistant.Api.Approvals.{given}

pub record PendingApprovalOut : Type 0 where
  pub approval_id : String
  pub tool_name : String
  pub summary : String
  pub risk_reason : String
  pub expires_at : ℕ
  pub arguments : Fields

pub record ChatResponse : Type 0 where
  pub conversation_id : String
  pub response : String
  pub status : String
  pub approval_required : Bool
  pub approval : Option PendingApprovalOut
  pub tools_called : List String
  pub errors : List String
  pub iterations : ℕ

-- `_map_status`
abbrev pub map_status : String → String
map_status status_value =
    if str_eq status_value "completed"
      || str_eq status_value "awaiting_approval"
      || str_eq status_value "failed"
    then status_value
    else "completed"

-- `PendingApprovalOut(**result.pending_approval.model_dump())`
abbrev pub pending_out : Option PendingApproval → Option PendingApprovalOut
pending_out none = none
pending_out (some pending) = some (record {
  approval_id = str_uuid pending.approval_id;
  tool_name = pending.tool_name;
  summary = pending.summary;
  risk_reason = pending.risk_reason;
  expires_at = pending.expires_at;
  arguments = pending.arguments;
})

-- `ChatResponse(…)`
unfoldable pub chat_response : AgentRunResult → ChatResponse
unfolding status_value
chat_response result = record {
  conversation_id = str_uuid result.conversation_id;
  response = result.response;
  status = map_status (status_value result.status);
  approval_required = approval_required result;
  approval = pending_out result.pending_approval;
  tools_called = result.tools_called;
  errors = result.errors;
  iterations = result.iterations;
}

-- `chat` from the conversation on.
unfoldable pub run_chat : AgentDependencies → User → String → Result Conversation → Run ChatResponse
unfolding chat_response
run_chat deps user message found = do
  conversation ← given found
  set_status conversation.status
  result ← run_agent (record deps { conversation_id = conversation.id }) user.id user.role message
  pure (chat_response result)

-- The id that a new conversation takes is used up.
abbrev take_id : Option ℕ → World → World
take_id (some _) w = w
take_id none w = record w { database = record w.database { next_id = w.database.next_id + 1 } }

-- `chat` of a user, with the conversations after it.
unfoldable pub chat :
    AgentDependencies
    → List Conversation
    → User
    → Option ℕ
    → String
    → World
    → (Result ChatResponse × World) × List Conversation
unfolding run_chat
chat deps conversations user conversation_id message w =
    let (found, conversations') =
      get_or_create conversations w.database.next_id user conversation_id (some message) in
    (run_chat deps user message found (take_id conversation_id w), conversations')
