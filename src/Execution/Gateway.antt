-- ===== src/Execution/Gateway.antt =====
-- `ToolExecutionService`: a call is authorised, run and recorded.
use mcp_business_assistant.Prelude.{
  ℕ, String, Bool, true, false, Option, none, some, List, [], ◌∷◌, ◌++◌, map, take, if◌then◌else◌,
}
use mcp_business_assistant.Prelude.Text.{◌⊕◌, repr_str, is_empty_text, join, or_text}
use mcp_business_assistant.Enums.{
  high_risk, tool_call_started, tool_call_succeeded, tool_call_failed, tool_call_blocked,
  AuditEventType, AuditOutcome, blocked, failure,
}
use mcp_business_assistant.Errors.{
  AppError, ErrorKind, mcp_server_unavailable, tool_not_found, tool_execution, tool_timeout, Result,
  ok, err, crash,
}
use mcp_business_assistant.Json.{Fields, obj, str, arr, field, end, of_list}
use mcp_business_assistant.Database.{
  Database, ApprovalRequest, AuditEntry, record_audit, audit_entry, tool_blocked,
}
use mcp_business_assistant.Action.{Action, pure, ◌>>=◌, ◌>>◌, modify}
use mcp_business_assistant.Mcp.Types.{ToolSpec, ToolCall, ToolResult, failure_result, to_payload}
use mcp_business_assistant.Mcp.Catalog.{catalog_names}
use mcp_business_assistant.Mcp.Manager.{Servers, Manager, manager_call_tool}
use mcp_business_assistant.Security.Policy.{PolicySettings, PolicyDecision}
use mcp_business_assistant.Approval.Service.{create_request, mark_executed, mark_failed}

pub data ExecutionStatus : Type 0 where
  executed failed approval_required denied : ExecutionStatus

pub record ExecutionOutcome : Type 0 where
  pub status : ExecutionStatus
  pub call : ToolCall
  pub result : Option ToolResult
  pub approval : Option ApprovalRequest
  pub decision : Option PolicyDecision
  pub message : String

-- `agent_visible_result`
unfoldable pub agent_visible_result : ExecutionOutcome → ToolResult
agent_visible_result outcome = elim outcome.result [
  | some result ↦ result
  | none ↦
      failure_result outcome.call
        (if is_empty_text outcome.message then "The tool call did not run." else outcome.message) 0
]

-- What the service is built from. `respond` is what the servers answer, given the calls before;
-- `meanwhile` is what other sessions write while a tool runs; `elapsed` is the reading of the timer;
-- `stack` is the interpreter's recursion limit for the validation.
pub record Gateway : Type 0 where
  pub sha256 : String → String
  pub settings : PolicySettings
  pub approval_ttl_minutes : ℕ
  pub stack : ℕ
  pub seconds : String
  pub manager : Manager
  pub respond : List ToolCall → Servers
  pub meanwhile : Database → Database
  pub elapsed : ℕ

-- The four classes of the `except` clause of `_run`
abbrev pub is_infrastructure : ErrorKind → Bool
is_infrastructure tool_timeout = true
is_infrastructure tool_not_found = true
is_infrastructure mcp_server_unavailable = true
is_infrastructure tool_execution = true
is_infrastructure _ = false

-- What `_run` goes on with: the result of the tool, or the error that it caught.
pub data Attempt : Type 0 where
  returned : ToolResult → Attempt
  caught : AppError → Attempt

abbrev pub attempt : Result ToolResult → Result Attempt
attempt (ok result) = ok (returned result)
attempt (err e) = if is_infrastructure e.kind then ok (caught e) else err e
attempt crash = crash

-- The call of `MCPManager.call_tool`. The calls that were handed over are kept in order.
unfoldable pub dispatch : Gateway → ToolCall → Action Attempt
dispatch gateway call db = (
  attempt (manager_call_tool (gateway.respond db.dispatched) gateway.seconds gateway.manager call),
  gateway.meanwhile (record db { dispatched = db.dispatched ++ call ∷ [] }),
)

abbrev arguments_payload : Fields → Fields
arguments_payload arguments = field "arguments" (obj arguments) end

abbrev approval_id : Option ApprovalRequest → Option ℕ
approval_id none = none
approval_id (some approval) = some approval.id

-- The fields that the audit entries of a run share.
abbrev entry_of :
    AuditEventType → ToolCall → ToolSpec → Option ℕ → Option ℕ → Option ApprovalRequest → AuditEntry
entry_of event call spec conversation_id user_id approval = record (audit_entry event) {
  conversation_id = conversation_id;
  user_id = user_id;
  approval_id = approval_id approval;
  tool_name = some call.tool_name;
  server_name = some spec.server;
  permission_level = some spec.permission;
}

abbrev pub settle_executed : Option ApprovalRequest → Option Fields → Action (Unit {0})
settle_executed none result = pure tt
settle_executed (some approval) result = mark_executed approval result

abbrev pub settle_failed : Option ApprovalRequest → String → Action (Unit {0})
settle_failed none message = pure tt
settle_failed (some approval) message = mark_failed approval message

abbrev failed_outcome : ToolCall → PolicyDecision → ToolResult → String → ExecutionOutcome
failed_outcome call decision result message = record {
  status = failed;
  call = call;
  result = some result;
  approval = none;
  decision = some decision;
  message = message;
}

-- The end of `_run`
unfoldable pub finish :
    Gateway
    → ToolCall
    → ToolSpec
    → PolicyDecision
    → Option ℕ
    → Option ℕ
    → Option ApprovalRequest
    → Attempt
    → Action ExecutionOutcome
finish gateway call spec decision conversation_id user_id approval (caught e) = do
  modify (
      record_audit (record (entry_of tool_call_failed call spec conversation_id user_id approval) {
        outcome = failure;
        error = some e.message;
      }))
  settle_failed approval e.message
  pure (failed_outcome call decision (failure_result call e.message gateway.elapsed) e.message)
finish gateway call spec decision conversation_id user_id approval (returned result) =
    if result.success
    then (do
      modify (
          record_audit
            (record (entry_of tool_call_succeeded call spec conversation_id user_id approval) {
              summary = some decision.summary;
              payload = some (to_payload result);
            }))
      settle_executed approval result.structured_content
      pure (record {
        status = executed;
        call = call;
        result = some result;
        approval = none;
        decision = some decision;
        message = "";
      }))
    else (do
      let error : String = or_text result.error "The tool reported an error."
      modify (
          record_audit
            (record (entry_of tool_call_failed call spec conversation_id user_id approval) {
              outcome = failure;
              error = some error;
            }))
      settle_failed approval error
      pure (failed_outcome call decision result error))

-- `_run`
unfoldable pub run :
    Gateway
    → ToolCall
    → ToolSpec
    → PolicyDecision
    → Option ℕ
    → Option ℕ
    → Option ApprovalRequest
    → Action ExecutionOutcome
run gateway call spec decision conversation_id user_id approval = do
  modify (
      record_audit (record (entry_of tool_call_started call spec conversation_id user_id approval) {
        outcome = AuditOutcome.pending;
        summary = some decision.summary;
        payload = some (arguments_payload call.arguments);
      }))
  attempted ← dispatch gateway call
  finish gateway call spec decision conversation_id user_id approval attempted

abbrev denied_outcome :
    ToolCall → Option PolicyDecision → Option ToolResult → String → ExecutionOutcome
denied_outcome call decision result message = record {
  status = denied;
  call = call;
  result = result;
  approval = none;
  decision = decision;
  message = message;
}

abbrev no_owner : ToolCall → PolicyDecision → ExecutionOutcome
no_owner call decision =
    denied_outcome call (some decision) none
      "This action requires approval, but no conversation context was available."

-- `_request_approval`
unfoldable pub request_approval :
    Gateway → ToolCall → ToolSpec → PolicyDecision → Option ℕ → Option ℕ → Action ExecutionOutcome
request_approval gateway call spec decision (some conversation_id) (some user_id) = do
  approval ←
      create_request gateway.sha256 gateway.approval_ttl_minutes conversation_id user_id decision
        spec.server call.arguments (some call.id)
  pure (record {
    status = approval_required;
    call = call;
    result = none;
    approval = some approval;
    decision = some decision;
    message = decision.summary;
  })
request_approval gateway call spec decision _ _ = pure (no_owner call decision)

-- `_deny`
unfoldable pub deny_call :
    ToolCall → ToolSpec → PolicyDecision → Option ℕ → Option ℕ → Action ExecutionOutcome
deny_call call spec decision conversation_id user_id = do
  modify (
      tool_blocked call.tool_name decision.reason spec.permission conversation_id user_id
        (some (arguments_payload call.arguments)))
  pure (
      denied_outcome call (some decision)
        (some (failure_result call ("Blocked by policy: " ⊕ decision.reason) 0)) decision.reason)

-- `_deny_unknown_tool`
unfoldable pub deny_unknown_tool :
    Gateway → ToolCall → Option ℕ → Option ℕ → Action ExecutionOutcome
deny_unknown_tool gateway call conversation_id user_id = do
  let available : String = join ", " (take 20 (catalog_names gateway.manager.catalog))
  let message : String =
      "Unknown tool "
      ⊕ repr_str call.tool_name
      ⊕ ". Available tools are: "
      ⊕ (if is_empty_text available then "none" else available)
      ⊕ "."
  modify (
      tool_blocked call.tool_name "tool is not in the discovered catalog" high_risk conversation_id
        user_id none)
  pure (denied_outcome call none (some (failure_result call message 0)) message)

-- `_reject_arguments`
unfoldable pub reject_arguments :
    ToolCall → ToolSpec → List String → Option ℕ → Option ℕ → Action ExecutionOutcome
reject_arguments call spec problems conversation_id user_id = do
  let message : String = "Invalid arguments for " ⊕ call.tool_name ⊕ ": " ⊕ join "; " problems ⊕ "."
  modify (
      record_audit (record (entry_of tool_call_blocked call spec conversation_id user_id none) {
        outcome = blocked;
        summary = some "invalid tool arguments";
        payload = some (
            field "problems" (arr (of_list (map str problems))) (arguments_payload call.arguments));
      }))
  pure (denied_outcome call none (some (failure_result call message 0)) message)
