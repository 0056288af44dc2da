-- ===== src/Agent/Runner.antt =====
-- app/agents/runner.py, without the duration of a run.
use mcp_business_assistant.Prelude.{
  ℕ, String, Bool, true, false, Option, none, some, List, [], ◌∷◌, ◌⊎◌, inl, inr, is_some,
  if◌then◌else◌,
}
use mcp_business_assistant.Prelude.Text.{◌⊕◌, or_text, str_uuid}
use mcp_business_assistant.Enums.{UserRole, ConversationStatus, active, awaiting_approval, archived}
use mcp_business_assistant.Errors.{AppError, agent_error, app_error, Result, ok, err, crash}
use mcp_business_assistant.Json.{str, bool, field, end}
use mcp_business_assistant.Database.{agent_error_entry}
use mcp_business_assistant.Mcp.Types.{ToolResult}
use mcp_business_assistant.Approval.Service.{ApprovalGrant}
use mcp_business_assistant.Conversation.Messages.{LlmResponse, system_message}
use mcp_business_assistant.Conversation.Transcript.{
  add_user_message, add_assistant_message, add_tool_result, load_history,
}
use mcp_business_assistant.Execution.Gateway.{agent_visible_result}
use mcp_business_assistant.Execution.Execute.{execute_approved}
use mcp_business_assistant.Agent.State.{
  AgentStatus, completed, failed, PendingApproval, AgentState, initial_state,
}
use mcp_business_assistant.Agent.World.{
  World, AgentDependencies, Prompt, Run, pure, raise, ◌>>=◌, ◌>>◌, attempt, reads, on_database,
  audit, persist, complete,
}
use mcp_business_assistant.Agent.Prompts.{build_system_prompt}
use mcp_business_assistant.Agent.Graph.{Node, run_graph}

pub record AgentRunResult : Type 0 where
  pub conversation_id : ℕ
  pub response : String
  pub status : AgentStatus
  pub pending_approval : Option PendingApproval
  pub tools_called : List String
  pub errors : List String
  pub iterations : ℕ

abbrev pub approval_required : AgentRunResult → Bool
approval_required result = is_some result.pending_approval

abbrev pub failed_run_error : AppError
failed_run_error = app_error agent_error "The assistant failed to process that request."

-- The `except` clause for what is no `AppError`, given the name of its class.
abbrev hide_failure : {A : Type 0} → AgentDependencies → ℕ → String → Run A
hide_failure deps user_id name = do
  audit (agent_error_entry name deps.conversation_id user_id)
  raise failed_run_error

-- What `run` makes of the end of the graph.
unfoldable pub guard_graph :
    AgentDependencies → ℕ → Option (Result AgentState) × World → Result AgentState × World
guard_graph deps user_id (some (ok state), w) = (ok state, w)
guard_graph deps user_id (some (err e), w) = (err e, w)
guard_graph deps user_id (some crash, w) = hide_failure deps user_id deps.exception_name w
guard_graph deps user_id (none, w) = hide_failure deps user_id "GraphRecursionError" w

abbrev pub invoke_graph : AgentDependencies → AgentState → Run AgentState
invoke_graph deps state w =
    guard_graph deps state.user_id (run_graph deps deps.recursion_limit Node.load_context state w)

abbrev pub set_status : ConversationStatus → Run (Unit {0})
set_status status w = (ok tt, record w { conversation_status = status })

abbrev pub same_status : ConversationStatus → ConversationStatus → Bool
same_status active active = true
same_status awaiting_approval awaiting_approval = true
same_status archived archived = true
same_status _ _ = false

abbrev pub mirrored_status : AgentStatus → ConversationStatus
mirrored_status AgentStatus.awaiting_approval = awaiting_approval
mirrored_status _ = active

-- `_sync_conversation_status`
unfoldable pub sync_conversation_status : AgentState → Run (Unit {0})
sync_conversation_status state = do
  current ← reads (λ (w : World). w.conversation_status)
  if same_status current (mirrored_status state.status)
      then pure tt
      else set_status (mirrored_status state.status)

abbrev pub run_result : AgentDependencies → AgentState → AgentRunResult
run_result deps final = record {
  conversation_id = deps.conversation_id;
  response = or_text final.final_response "I was not able to produce a response.";
  status = final.status;
  pending_approval = final.pending_approval;
  tools_called = final.selected_tools;
  errors = final.errors;
  iterations = final.iteration;
}

-- The end of `AgentRunner.run`
abbrev pub report : AgentDependencies → AgentState → Run AgentRunResult
report deps final = do sync_conversation_status final; pure (run_result deps final)

-- `AgentRunner.run` from the state on
abbrev pub run_from : AgentDependencies → AgentState → Run AgentRunResult
run_from deps state = invoke_graph deps state >>= report deps

-- `AgentRunner.run` for a user, given by the id and the role.
unfoldable pub run_agent : AgentDependencies → ℕ → UserRole → String → Run AgentRunResult
run_agent deps user_id user_role message = do
  persist deps (λ read ms. add_user_message read deps.conversation_id message ms)
  run_from deps
      (initial_state deps.conversation_id user_id user_role message deps.agent_max_iterations)

abbrev pub default_completion : String → Bool → String
default_completion tool_name success =
    if success
    then "Done -- " ⊕ tool_name ⊕ " has been executed."
    else "The approved action " ⊕ tool_name ⊕ " could not be completed."

-- The end of `_compose_completion`
abbrev pub completion_text : String → Bool → AppError ⊎ LlmResponse → String
completion_text tool_name success (inl e) = default_completion tool_name success
completion_text tool_name success (inr response) =
    or_text response.content (default_completion tool_name success)

-- The messages that `_compose_completion` sends; no tools are offered.
unfoldable pub completion_prompt : AgentDependencies → World → Prompt
completion_prompt deps w = record {
  messages =
      system_message (build_system_prompt w.database.now false false)
      ∷ load_history deps.history_limit deps.conversation_id none w.messages;
  tools = none;
}

-- `_compose_completion`
unfoldable pub compose_completion : AgentDependencies → String → Bool → Run String
unfolding completion_prompt
compose_completion deps tool_name success = do
  prompt ← reads (completion_prompt deps)
  answer ← attempt (complete deps prompt)
  pure (completion_text tool_name success answer)

abbrev pub resumed_result : AgentDependencies → ApprovalGrant → ToolResult → String → AgentRunResult
resumed_result deps grant result response = record {
  conversation_id = deps.conversation_id;
  response = response;
  status = if result.success then completed else failed;
  pending_approval = none;
  tools_called = grant.tool_name ∷ [];
  errors = if result.success then [] else or_text result.error "The approved action failed." ∷ [];
  iterations = 0;
}

-- `AgentRunner.resume_after_approval` from the result of the tool on
unfoldable pub finish_resumption :
    AgentDependencies → ApprovalGrant → ToolResult → Run AgentRunResult
unfolding str_uuid
finish_resumption deps grant result = do
  persist deps (λ read ms. add_tool_result read deps.conversation_id result ms)
  response ← compose_completion deps grant.tool_name result.success
  persist deps (λ read ms.
      add_assistant_message read deps.conversation_id (some response) []
        (some (
          field "approval_id" (str (str_uuid grant.approval_id))
            (field "executed" (bool result.success) end)))
        ms)
  set_status active
  pure (resumed_result deps grant result response)

-- `AgentRunner.resume_after_approval`
unfoldable pub resume_after_approval :
    AgentDependencies → ℕ → UserRole → ApprovalGrant → Run AgentRunResult
resume_after_approval deps user_id user_role grant = do
  outcome ← on_database (
      execute_approved deps.gateway grant (record { user_role = user_role }) deps.conversation_id
        user_id)
  finish_resumption deps grant (agent_visible_result outcome)
