-- ===== src/Agent/Nodes/Execute.antt =====
-- The nodes `execute_tools` and `validate_results` of app/agents/nodes.py.
use mcp_business_assistant.Prelude.{
  ℕ, ◌-◌, String, Bool, true, false, not, ◌&&◌, Option, none, some, List, [], ◌∷◌, ◌++◌, ◌⊎◌, inl,
  inr, keep, drop, length, leb, ◌==◌, is_empty, is_some, if◌then◌else◌,
}
use mcp_business_assistant.Prelude.Text.{◌⊕◌, is_empty_text, or_text}
use mcp_business_assistant.Errors.{AppError}
use mcp_business_assistant.Json.{obj}
use mcp_business_assistant.Json.Dumps.{dumps}
use mcp_business_assistant.Mcp.Types.{ToolCall, ToolResult, failure_result}
use mcp_business_assistant.Conversation.Messages.{LlmToolCall, LlmMessage, tool_message}
use mcp_business_assistant.Conversation.Transcript.{add_tool_result}
use mcp_business_assistant.Database.{ApprovalRequest}
use mcp_business_assistant.Execution.Gateway.{
  ExecutionStatus, approval_required, ExecutionOutcome, agent_visible_result,
}
use mcp_business_assistant.Execution.Execute.{execute}
use mcp_business_assistant.Agent.State.{running, awaiting_approval, PendingApproval, AgentState}
use mcp_business_assistant.Agent.World.{
  AgentDependencies, Run, pure, ◌>>=◌, ◌>>◌, attempt, on_database, persist,
}

-- What `execute_tools` gathers from the calls so far.
pub record Progress : Type 0 where
  pub results : List ToolResult
  pub history : List LlmMessage
  pub pending : Option PendingApproval
  pub errors : List String

-- `_render_for_model`
unfoldable pub render_for_model : ToolResult → String
render_for_model result = elim result.structured_content [
  | some structured ↦ dumps (obj structured)
  | none ↦ if is_empty_text result.content then or_text result.error "" else result.content
]

abbrev pub call_of : LlmToolCall → ToolCall
call_of proposed = record {
  id = proposed.id;
  tool_name = proposed.name;
  arguments = proposed.arguments;
}

abbrev pub pending_of : ApprovalRequest → PendingApproval
pending_of approval = record {
  approval_id = approval.id;
  tool_name = approval.tool_name;
  summary = approval.summary;
  risk_reason = approval.risk_reason;
  expires_at = approval.expires_at;
  arguments = approval.arguments;
}

abbrev pub noted :
    ToolCall → ToolResult → String → Option PendingApproval → List String → Progress → Progress
noted call result content pending errors progress = record {
  results = progress.results ++ result ∷ [];
  history = progress.history ++ tool_message call.id call.tool_name content ∷ [];
  pending = pending;
  errors = progress.errors ++ errors;
}

-- One more result, its turn in the transcript and what the model reads of it.
unfoldable pub note_result :
    AgentDependencies
    → ToolCall
    → ToolResult
    → String
    → Option PendingApproval
    → List String
    → Progress
    → Run Progress
note_result deps call result content pending errors progress = do
  persist deps (λ read ms. add_tool_result read deps.conversation_id result ms)
  pure (noted call result content pending errors progress)

abbrev pub approval_needed_text : ApprovalRequest → String
approval_needed_text approval =
    "This action needs your approval before it can run: " ⊕ approval.summary ⊕ " ("
    ⊕ approval.risk_reason ⊕ ")"

-- `needs_approval`
abbrev pub needs_approval : ExecutionStatus → Bool
needs_approval approval_required = true
needs_approval _ = false

-- `outcome.approval` where the outcome needs one
abbrev pub asked_approval : ExecutionOutcome → Option ApprovalRequest
asked_approval outcome = if needs_approval outcome.status then outcome.approval else none

-- The body of the loop of `execute_tools` after the call, by how it ended.
unfoldable pub settle_call :
    AgentDependencies → ToolCall → Progress → AppError ⊎ ExecutionOutcome → Run Progress
settle_call deps call progress (inl e) =
    note_result deps call (failure_result call e.message 0) e.message none (e.message ∷ []) progress
settle_call deps call progress (inr outcome) = elim (asked_approval outcome) [
  | some approval ↦
      let notice = approval_needed_text approval in
      note_result deps call (failure_result call notice 0) notice (some (pending_of approval)) []
        progress
  | none ↦
      let result = agent_visible_result outcome in
      note_result deps call result (render_for_model result) none
        (if result.success then [] else or_text result.error (call.tool_name ⊕ " failed.") ∷ [])
        progress
]

-- The call of one proposal, of which an `AppError` is kept.
abbrev pub try_call : AgentDependencies → AgentState → ToolCall → Run (AppError ⊎ ExecutionOutcome)
try_call deps state call = attempt (
    on_database (
      execute deps.gateway call (record { user_role = state.user_role }) none
        (some deps.conversation_id) (some state.user_id)))

-- The loop of `execute_tools`, which the first pending approval ends.
unfoldable pub execute_calls :
    AgentDependencies → AgentState → List LlmToolCall → Progress → Run Progress
unfolding settle_call
execute_calls deps state [] progress = pure progress
execute_calls deps state (proposed ∷ calls) progress = do
  outcome ← try_call deps state (call_of proposed)
  next ← settle_call deps (call_of proposed) progress outcome
  if is_some next.pending then pure next else execute_calls deps state calls next

abbrev pub executed_state : AgentState → Progress → AgentState
executed_state state progress = record state {
  tool_results = state.tool_results ++ progress.results;
  conversation_history = progress.history;
  tool_calls = [];
  pending_approval = progress.pending;
  errors = progress.errors;
}

abbrev pub no_progress : AgentState → Progress
no_progress state = record {
  results = [];
  history = state.conversation_history;
  pending = none;
  errors = state.errors;
}

-- `execute_tools`
unfoldable pub execute_tools : AgentDependencies → AgentState → Run AgentState
unfolding execute_calls
execute_tools deps state = do
  progress ← execute_calls deps state state.tool_calls (no_progress state)
  pure (executed_state state progress)

-- `xs[-n:]` for a positive `n`
abbrev pub last_items : {A : Type 0} → ℕ → List A → List A
last_items n xs = drop (length xs - n) xs

abbrev pub recent_results : AgentState → List ToolResult
recent_results state =
    if is_empty state.tool_calls
    then state.tool_results
    else last_items (length state.tool_calls) state.tool_results

-- Every recent result is a failure, there is one, and the model was asked twice at least.
abbrev pub keeps_failing : AgentState → Bool
keeps_failing state =
    let failures = keep (λ (r : ToolResult). not r.success) (recent_results state) in
    not (is_empty failures)
    && length failures == length (recent_results state)
    && leb 2 state.iteration

-- `validate_results`
unfoldable pub validate_results : AgentDependencies → AgentState → Run AgentState
validate_results deps state =
    if is_some state.pending_approval
    then pure (record state { status = awaiting_approval })
    else if keeps_failing state
    then pure (record state {
      status = running;
      errors = state.errors ++ "Repeated tool failures; stopping." ∷ [];
      final_response = none;
    })
    else pure state
