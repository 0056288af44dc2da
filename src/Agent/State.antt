-- ===== src/Agent/State.antt =====
-- app/agents/state.py, without the request id. The ids of the conversation, of the user and of an
-- approval are numbers, as in the tables.
use mcp_business_assistant.Prelude.{
  ℕ, String, Bool, true, false, not, Option, none, List, [], keep, length, leb, is_empty, is_some,
}
use mcp_business_assistant.Prelude.Int.{pos}
use mcp_business_assistant.Enums.{UserRole}
use mcp_business_assistant.Json.{Fields, str, int, bool, field, end}
use mcp_business_assistant.Mcp.Types.{ToolSpec, ToolResult}
use mcp_business_assistant.Conversation.Messages.{LlmToolCall, LlmMessage}

pub data AgentStatus : Type 0 where
  running completed awaiting_approval failed : AgentStatus

unfoldable pub status_value : AgentStatus → String
status_value running = "running"
status_value completed = "completed"
status_value awaiting_approval = "awaiting_approval"
status_value failed = "failed"

abbrev pub is_failed : AgentStatus → Bool
is_failed failed = true
is_failed _ = false

abbrev pub is_running : AgentStatus → Bool
is_running running = true
is_running _ = false

pub record PendingApproval : Type 0 where
  pub approval_id : ℕ
  pub tool_name : String
  pub summary : String
  pub risk_reason : String
  pub expires_at : ℕ
  pub arguments : Fields

pub record AgentState : Type 0 where
  pub conversation_id : ℕ
  pub user_id : ℕ
  pub user_role : UserRole
  pub current_request : String
  pub conversation_history : List LlmMessage
  pub available_tools : List ToolSpec
  pub selected_tools : List String
  pub tool_calls : List LlmToolCall
  pub tool_results : List ToolResult
  pub final_response : Option String
  pub pending_approval : Option PendingApproval
  pub status : AgentStatus
  pub errors : List String
  pub iteration : ℕ
  pub max_iterations : ℕ

-- A state with the defaults of its fields.
unfoldable pub initial_state : ℕ → ℕ → UserRole → String → ℕ → AgentState
initial_state conversation_id user_id user_role current_request max_iterations = record {
  conversation_id = conversation_id;
  user_id = user_id;
  user_role = user_role;
  current_request = current_request;
  conversation_history = [];
  available_tools = [];
  selected_tools = [];
  tool_calls = [];
  tool_results = [];
  final_response = none;
  pending_approval = none;
  status = running;
  errors = [];
  iteration = 0;
  max_iterations = max_iterations;
}

abbrev pub has_pending_calls : AgentState → Bool
has_pending_calls state = not (is_empty state.tool_calls)

abbrev pub is_finished : AgentState → Bool
is_finished state = not (is_running state.status)

abbrev pub iteration_budget_exhausted : AgentState → Bool
iteration_budget_exhausted state = leb state.max_iterations state.iteration

abbrev pub successful_results : AgentState → List ToolResult
successful_results state = keep (λ (r : ToolResult). r.success) state.tool_results

abbrev pub failed_results : AgentState → List ToolResult
failed_results state = keep (λ (r : ToolResult). not r.success) state.tool_results

-- `summary`
unfoldable pub state_summary : AgentState → Fields
unfolding status_value
state_summary state = field "status" (str (status_value state.status)) (
    field "iteration" (int (pos state.iteration)) (
      field "tools_available" (int (pos (length state.available_tools))) (
        field "tools_called" (int (pos (length state.selected_tools))) (
          field "tool_results" (int (pos (length state.tool_results))) (
            field "errors" (int (pos (length state.errors)))
              (field "awaiting_approval" (bool (is_some state.pending_approval)) end))))))
