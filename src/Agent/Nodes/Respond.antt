-- ===== src/Agent/Nodes/Respond.antt =====
-- The node `respond` of app/agents/nodes.py, with the answers that need no model.
use mcp_business_assistant.Prelude.{
  ◌-◌, String, true, Option, none, some, List, [], map, take, drop, length, is_empty, is_some,
  if◌then◌else◌,
}
use mcp_business_assistant.Prelude.Text.{◌⊕◌, is_empty_text, join, prefix, rstrip, str_uuid}
use mcp_business_assistant.Prelude.Time.{format_minute}
use mcp_business_assistant.Enums.{AuditOutcome, agent_response}
use mcp_business_assistant.Json.{Fields, bool, field, end, get, keys, py_str}
use mcp_business_assistant.Database.{audit_entry}
use mcp_business_assistant.Mcp.Types.{ToolResult}
use mcp_business_assistant.Conversation.Transcript.{add_assistant_message}
use mcp_business_assistant.Agent.State.{
  AgentStatus, completed, awaiting_approval, failed, is_failed, PendingApproval, AgentState,
  successful_results, state_summary,
}
use mcp_business_assistant.Agent.World.{AgentDependencies, Run, pure, ◌>>◌, audit, persist}

-- The part of `_condense` for a payload that is a dict.
abbrev pub condense_fields : Fields → String
condense_fields payload = elim (get "count" payload) [
  | some count ↦ py_str count ⊕ " record(s)"
  | none ↦ elim (get "headline" payload) [
    | some headline ↦ py_str headline
    | none ↦ "returned " ⊕ join ", " (take 4 (keys payload))
  ]
]

-- `_condense`
unfoldable pub condense : ToolResult → String
unfolding prefix py_str join
condense result = elim result.structured_content [
  | some payload ↦ condense_fields payload
  | none ↦ prefix 160 (if is_empty_text result.content then "completed" else result.content)
]

abbrev last_five : List ToolResult → List ToolResult
last_five xs = drop (length xs - 5) xs

abbrev last_two : List String → List String
last_two xs = drop (length xs - 2) xs

-- `_summarise_without_model`
unfoldable pub summarise_without_model : AgentState → String
unfolding condense join
summarise_without_model state =
    let successes = successful_results state in
    if is_some state.pending_approval
    then "I have prepared this action and it is waiting for your approval."
    else if is_empty successes
    then (if is_empty state.errors
        then "I was not able to find anything for that request."
        else "I could not complete that request. " ⊕ join " " (last_two state.errors))
    else "Here is what I found:\n"
      ⊕ join "\n"
          (map (λ (r : ToolResult). "- " ⊕ r.tool_name ⊕ ": " ⊕ condense r) (last_five successes))

-- `_approval_notice`
unfoldable pub approval_notice : PendingApproval → String
unfolding str_uuid format_minute
approval_notice pending =
    "**Approval required.** "
    ⊕ pending.summary
    ⊕ "\nReason: "
    ⊕ pending.risk_reason
    ⊕ "\nConfirm with: POST /api/v1/approvals/"
    ⊕ str_uuid pending.approval_id
    ⊕ "/confirm (expires "
    ⊕ format_minute pending.expires_at
    ⊕ " UTC)."

abbrev pub closing_status : AgentState → AgentStatus
closing_status state =
    if is_failed state.status
    then failed
    else if is_some state.pending_approval
    then awaiting_approval
    else completed

-- `response or …`
unfoldable pub answer_text : AgentState → String
answer_text state = elim state.final_response [
  | some response ↦ if is_empty_text response then summarise_without_model state else response
  | none ↦ summarise_without_model state
]

abbrev pub with_notice : Option PendingApproval → String → String
with_notice none response = response
with_notice (some pending) response = rstrip response ⊕ "\n\n" ⊕ approval_notice pending

-- The answer that asks for an approval is a turn of its own.
abbrev pub persist_notice : AgentDependencies → Option PendingApproval → String → Run (Unit {0})
persist_notice deps none response = pure tt
persist_notice deps (some pending) response = persist deps (λ read ms.
    add_assistant_message read deps.conversation_id (some response) []
      (some (field "approval_required" (bool true) end)) ms)

-- The end of `respond`
abbrev pub close_run : AgentDependencies → AgentState → String → Run AgentState
close_run deps state response = do
  audit (record (audit_entry agent_response) {
    outcome = if is_some state.pending_approval then AuditOutcome.pending else AuditOutcome.success;
    conversation_id = some deps.conversation_id;
    user_id = some state.user_id;
    summary = some (prefix 500 response);
    payload = some (state_summary state);
  })
  pure (record state { final_response = some response; status = closing_status state })

-- `respond`
unfoldable pub respond : AgentDependencies → AgentState → Run AgentState
unfolding answer_text prefix
respond deps state = do
  let response : String = with_notice state.pending_approval (answer_text state)
  persist_notice deps state.pending_approval response
  close_run deps state response
