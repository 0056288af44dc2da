-- ===== src/Agent/Nodes.antt =====
-- app/agents/nodes.py up to the node `plan`: each node takes the state and returns it with the fields
-- it changed.
pub mod Execute
pub mod Respond
use mcp_business_assistant.Prelude.{
  ℕ, ◌+◌, ◌-◌, String, Bool, true, false, not, ◌&&◌, Option, none, some, List, [], ◌∷◌, ◌++◌, ◌⊎◌,
  inl, inr, map, keep, drop, length, leb, ◌==◌, is_empty, is_some, if◌then◌else◌,
}
use mcp_business_assistant.Prelude.Int.{pos}
use mcp_business_assistant.Prelude.Text.{◌⊕◌, is_empty_text, or_text, prefix, str_ℕ}
use mcp_business_assistant.Enums.{
  AuditEventType, agent_request_received, agent_tools_discovered, agent_decision, is_viewer,
}
use mcp_business_assistant.Errors.{AppError, ErrorKind, llm_error, llm_timeout}
use mcp_business_assistant.Json.{Fields, obj, arr, str, int, bool, field, end, of_list}
use mcp_business_assistant.Json.Dumps.{dumps}
use mcp_business_assistant.Database.{AuditEntry, audit_entry, agent_error_entry}
use mcp_business_assistant.Mcp.Types.{ToolSpec, ToolCall, ToolResult, failure_result}
use mcp_business_assistant.Mcp.Catalog.{ToolCatalog, readable_only, specs_of, stats}
use mcp_business_assistant.Security.Policy.{PolicyContext}
use mcp_business_assistant.Conversation.Messages.{
  LlmToolCall, LlmMessage, LlmResponse, system_message, assistant_message, tool_message,
}
use mcp_business_assistant.Conversation.Transcript.{
  load_history as history_of, add_assistant_message, add_tool_result,
}
use mcp_business_assistant.Database.{ApprovalRequest}
use mcp_business_assistant.Execution.Gateway.{
  ExecutionStatus, approval_required, ExecutionOutcome, agent_visible_result,
}
use mcp_business_assistant.Execution.Execute.{execute}
use mcp_business_assistant.Agent.State.{
  AgentStatus, running, awaiting_approval, failed, PendingApproval, AgentState,
  iteration_budget_exhausted,
}
use mcp_business_assistant.Agent.World.{
  AgentDependencies, Prompt, Run, pure, raise, ◌>>=◌, ◌>>◌, attempt, reads, on_database, audit,
  persist, complete, World,
}
use mcp_business_assistant.Agent.Prompts.{build_system_prompt}

-- The fields that the audit entries of a run share.
abbrev pub entry_of : AuditEventType → AgentState → AgentDependencies → AuditEntry
entry_of event state deps = record (audit_entry event) {
  conversation_id = some deps.conversation_id;
  user_id = some state.user_id;
}

-- `load_context`
unfoldable pub load_context : AgentDependencies → AgentState → Run AgentState
unfolding prefix
load_context deps state = do
  history ← reads (λ w. history_of deps.history_limit deps.conversation_id none w.messages)
  audit (record (entry_of agent_request_received state deps) {
    summary = some (prefix 500 state.current_request);
    payload = some (field "history_messages" (int (pos (length history))) end);
  })
  pure (record state { conversation_history = history })

abbrev pub stats_fields : ToolCatalog → Fields
stats_fields catalog =
    let (read, write, high_risk, total) = stats catalog in
    field "read" (int (pos read)) (
      field "write" (int (pos write))
        (field "high_risk" (int (pos high_risk)) (field "total" (int (pos total)) end)))

-- The catalog that a run works with.
unfoldable pub visible_catalog : AgentDependencies → AgentState → ToolCatalog
visible_catalog deps state =
    let catalog = deps.gateway.manager.catalog in
    if is_viewer state.user_role then readable_only catalog else catalog

-- `discover_tools`
unfoldable pub discover_tools : AgentDependencies → AgentState → Run AgentState
unfolding visible_catalog specs_of
discover_tools deps state = do
  let available : List ToolSpec = specs_of (visible_catalog deps state)
  audit (record (entry_of agent_tools_discovered state deps) {
    summary = some (str_ℕ (length available) ⊕ " tools available");
    payload = some (
        field "tools" (arr (of_list (map (λ (s : ToolSpec). str s.qualified_name) available)))
          (stats_fields (visible_catalog deps state)));
  })
  pure (record state {
    available_tools = available;
    errors =
        if is_empty available
        then state.errors ++ "No MCP tools are currently available." ∷ []
        else state.errors;
  })

-- `_build_messages`
unfoldable pub build_messages : ℕ → AgentState → List LlmMessage
unfolding build_system_prompt
build_messages now state =
    system_message
      (build_system_prompt now (is_viewer state.user_role) (is_some state.pending_approval))
    ∷ state.conversation_history

-- `state.available_tools or None`
abbrev offered_tools : List ToolSpec → Option (List ToolSpec)
offered_tools [] = none
offered_tools (tool ∷ tools) = some (tool ∷ tools)

abbrev pub planning_prompt : ℕ → AgentState → Prompt
planning_prompt now state = record {
  messages = build_messages now state;
  tools = offered_tools state.available_tools;
}

-- `LLMError` and its subclass
abbrev pub is_llm_error : ErrorKind → Bool
is_llm_error llm_error = true
is_llm_error llm_timeout = true
is_llm_error _ = false

abbrev pub limit_reached : AgentState → AgentState
limit_reached state = record state {
  status = running;
  tool_calls = [];
  final_response = none;
  errors = state.errors ++ ("Reached the " ⊕ str_ℕ state.max_iterations ⊕ "-step limit.") ∷ [];
}

abbrev pub model_unreachable : AppError → AgentState → AgentState
model_unreachable e state = record state {
  status = failed;
  errors = state.errors ++ e.message ∷ [];
  final_response =
      some "I could not reach the language model to process that request. Please try again.";
}

abbrev pub call_names : List LlmToolCall → List String
call_names calls = map (λ (call : LlmToolCall). call.name) calls

abbrev pub decided : LlmResponse → AgentState → AgentState
decided response state = record state {
  iteration = state.iteration + 1;
  tool_calls = response.tool_calls;
  selected_tools = state.selected_tools ++ call_names response.tool_calls;
  final_response = if is_empty response.tool_calls then response.content else none;
  conversation_history =
      state.conversation_history ++ assistant_message response.content response.tool_calls ∷ [];
}

-- `bool(text)` of an optional text
abbrev pub has_text : Option String → Bool
has_text none = false
has_text (some s) = not (is_empty_text s)

-- The record of what the model chose.
abbrev pub note_decision : AgentDependencies → AgentState → LlmResponse → Run AgentState
note_decision deps state response = do
  audit (record (entry_of agent_decision state deps) {
    summary = some ("selected " ⊕ str_ℕ (length response.tool_calls) ⊕ " tool(s)");
    payload = some (
        field "tools" (arr (of_list (map str (call_names response.tool_calls)))) (
          field "iteration" (int (pos (state.iteration + 1)))
            (field "has_content" (bool (has_text response.content)) end)));
  })
  pure (decided response state)

-- `plan` after the call of the model.
unfoldable pub planned : AgentDependencies → AgentState → AppError ⊎ LlmResponse → Run AgentState
planned deps state (inl e) =
    if is_llm_error e.kind
    then (do
      audit (agent_error_entry e.message deps.conversation_id state.user_id)
      pure (model_unreachable e state))
    else raise e
planned deps state (inr response) = do
  persist deps (λ read ms.
      add_assistant_message read deps.conversation_id response.content response.tool_calls none ms)
  note_decision deps state response

-- `plan`
unfoldable pub plan : AgentDependencies → AgentState → Run AgentState
plan deps state = if iteration_budget_exhausted state then pure (limit_reached state) else (do
  now ← reads (λ w. w.database.now)
  answer ← attempt (complete deps (planning_prompt now state))
  planned deps state answer)
