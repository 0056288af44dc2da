-- ===== src/Execution/Paths.antt =====
-- The paths of the tool execution service beside the call itself write as the services do, and call
-- no tool.
use mcp_business_assistant.Prelude.{ℕ, String, Option, none, some, List}
use mcp_business_assistant.Json.{Fields}
use mcp_business_assistant.Enums.{PermissionLevel}
use mcp_business_assistant.Database.{ApprovalRequest, tool_blocked}
use mcp_business_assistant.Mcp.Types.{ToolSpec, ToolCall}
use mcp_business_assistant.Security.Policy.{PolicyDecision}
use mcp_business_assistant.Approval.Evolution.{Keeps, Steady, record_audit-Leads, keeps_rules}
use mcp_business_assistant.Approval.Methods.{
  create_request-Keeps, mark_executed-Keeps, mark_failed-Keeps,
}
use mcp_business_assistant.Execution.Gateway.{
  Gateway, Attempt, returned, caught, settle_executed, settle_failed, finish, request_approval,
  deny_call, deny_unknown_tool, reject_arguments,
}

pub tool_blocked-Steady :
    (tool reason : String) (level : PermissionLevel) (c u : Option ℕ) (p : Option Fields)
    → Steady (tool_blocked tool reason level c u p)
unfolding tool_blocked
tool_blocked-Steady tool reason level c u p = record { at = λ db. record_audit-Leads _ db }

pub settle_executed-Keeps :
    (approval : Option ApprovalRequest) (x : Option Fields) → Keeps (settle_executed approval x)
settle_executed-Keeps none x = search keeps_rules
settle_executed-Keeps (some r) x = mark_executed-Keeps r x

pub settle_failed-Keeps :
    (approval : Option ApprovalRequest) (m : String) → Keeps (settle_failed approval m)
settle_failed-Keeps none m = search keeps_rules
settle_failed-Keeps (some r) m = mark_failed-Keeps r m

ruleset quiet_rules = (keeps_rules, tool_blocked-Steady, settle_executed-Keeps, settle_failed-Keeps)

pub finish-Keeps :
    (gateway : Gateway) (call : ToolCall) (spec : ToolSpec) (d : PolicyDecision) (c u : Option ℕ)
    (approval : Option ApprovalRequest) (a : Attempt)
    → Keeps (finish gateway call spec d c u approval a)
unfolding finish
finish-Keeps gateway call spec d c u approval (caught e) = search quiet_rules
finish-Keeps gateway call spec d c u approval (returned result) = search quiet_rules

pub request_approval-Keeps :
    (gateway : Gateway) (call : ToolCall) (spec : ToolSpec) (d : PolicyDecision) (c u : Option ℕ)
    → Keeps (request_approval gateway call spec d c u)
unfolding request_approval
request_approval-Keeps gateway call spec d none u = search quiet_rules
request_approval-Keeps gateway call spec d (some c) none = search quiet_rules
request_approval-Keeps gateway call spec d (some c) (some u) =
    search (quiet_rules, create_request-Keeps)

pub deny_call-Keeps :
    (call : ToolCall) (spec : ToolSpec) (d : PolicyDecision) (c u : Option ℕ)
    → Keeps (deny_call call spec d c u)
unfolding deny_call
deny_call-Keeps call spec d c u = search quiet_rules

pub deny_unknown_tool-Keeps :
    (gateway : Gateway) (call : ToolCall) (c u : Option ℕ)
    → Keeps (deny_unknown_tool gateway call c u)
unfolding deny_unknown_tool
deny_unknown_tool-Keeps gateway call c u = search quiet_rules

pub reject_arguments-Keeps :
    (call : ToolCall) (spec : ToolSpec) (ps : List String) (c u : Option ℕ)
    → Keeps (reject_arguments call spec ps c u)
unfolding reject_arguments
reject_arguments-Keeps call spec ps c u = search quiet_rules
