-- ===== src/Execution/Execute.antt =====
-- `execute`, `execute_approved` and `describe_available_tools` of `ToolExecutionService`.
use mcp_business_assistant.Prelude.{
  ℕ, String, Bool, ◌&&◌, ◌||◌, Option, none, some, List, [], ◌∷◌, lookup, map, is_empty,
  if◌then◌else◌,
}
use mcp_business_assistant.Prelude.Text.{◌⊕◌, hex_prefix, text_before}
use mcp_business_assistant.Enums.{PermissionLevel, is_high_risk, is_write}
use mcp_business_assistant.Json.{Fields}
use mcp_business_assistant.Action.{Action, lift, or_crash, ◌>>=◌}
use mcp_business_assistant.Mcp.Types.{ToolSpec, ToolCall}
use mcp_business_assistant.Mcp.Catalog.{ToolCatalog, specs_of}
use mcp_business_assistant.Mcp.Validation.{validate_arguments}
use mcp_business_assistant.Security.Policy.{
  PolicySettings, PolicyContext, PolicyDecision, PolicyOutcome, allow, require_approval, deny,
  evaluate,
}
use mcp_business_assistant.Approval.Service.{ApprovalGrant, verify_grant}
use mcp_business_assistant.Execution.Gateway.{
  Gateway, ExecutionOutcome, run, request_approval, deny_call, deny_unknown_tool, reject_arguments,
}

-- A call that needs an approval: a grant is proved against the table before the tool runs.
unfoldable pub execute_gated :
    Gateway
    → ToolCall
    → ToolSpec
    → PolicyDecision
    → Option ApprovalGrant
    → Option ℕ
    → Option ℕ
    → Action ExecutionOutcome
execute_gated gateway call spec decision none conversation_id user_id =
    request_approval gateway call spec decision conversation_id user_id
execute_gated gateway call spec decision (some grant) conversation_id user_id = do
  approval ← verify_grant gateway.sha256 grant call.tool_name
  run gateway call spec decision conversation_id user_id (some approval)

-- The branches of `execute` on the decision, by its outcome.
unfoldable pub execute_outcome :
    Gateway
    → ToolCall
    → ToolSpec
    → Option ApprovalGrant
    → Option ℕ
    → Option ℕ
    → PolicyOutcome
    → PolicyDecision
    → Action ExecutionOutcome
execute_outcome gateway call spec grant conversation_id user_id deny decision =
    deny_call call spec decision conversation_id user_id
execute_outcome gateway call spec grant conversation_id user_id require_approval decision =
    execute_gated gateway call spec decision grant conversation_id user_id
execute_outcome gateway call spec grant conversation_id user_id allow decision =
    run gateway call spec decision conversation_id user_id none

abbrev pub execute_decided :
    Gateway
    → ToolCall
    → ToolSpec
    → Option ApprovalGrant
    → Option ℕ
    → Option ℕ
    → PolicyDecision
    → Action ExecutionOutcome
execute_decided gateway call spec grant conversation_id user_id decision =
    execute_outcome gateway call spec grant conversation_id user_id decision.outcome decision

-- The part of `execute` for a tool of the catalog.
unfoldable pub execute_known :
    Gateway
    → ToolCall
    → ToolSpec
    → PolicyContext
    → Option ApprovalGrant
    → Option ℕ
    → Option ℕ
    → Action ExecutionOutcome
execute_known gateway call spec context grant conversation_id user_id = do
  problems ← or_crash (validate_arguments gateway.stack spec.input_schema call.arguments)
  if is_empty problems
      then (do
        decision ← lift (evaluate gateway.settings spec call.arguments context)
        execute_decided gateway call spec grant conversation_id user_id decision)
      else reject_arguments call spec problems conversation_id user_id

-- `execute`
unfoldable pub execute :
    Gateway
    → ToolCall
    → PolicyContext
    → Option ApprovalGrant
    → Option ℕ
    → Option ℕ
    → Action ExecutionOutcome
execute gateway call context grant conversation_id user_id =
    elim (lookup call.tool_name gateway.manager.catalog) [
      | none ↦ deny_unknown_tool gateway call conversation_id user_id
      | some spec ↦ execute_known gateway call spec context grant conversation_id user_id
    ]

-- The call of `execute_approved`, whose arguments are those of the grant.
unfoldable pub approved_call : ApprovalGrant → ToolCall
approved_call grant = record {
  id = "approved_" ⊕ hex_prefix 8 grant.approval_id;
  tool_name = grant.tool_name;
  arguments = grant.arguments;
}

-- `execute_approved`
unfoldable pub execute_approved :
    Gateway → ApprovalGrant → PolicyContext → ℕ → ℕ → Action ExecutionOutcome
execute_approved gateway grant context conversation_id user_id =
    execute gateway (approved_call grant) context (some grant) (some conversation_id) (some user_id)

-- An entry of `describe_available_tools`
pub record ToolDescription : Type 0 where
  pub name : String
  pub server : String
  pub description : String
  pub permission : PermissionLevel
  pub requires_approval : Bool
  pub input_schema : Fields

unfoldable pub describe_tool : PolicySettings → ToolSpec → ToolDescription
describe_tool settings spec = record {
  name = spec.qualified_name;
  server = spec.server;
  description = spec.description;
  permission = spec.permission;
  requires_approval =
      is_high_risk spec.permission
      || (is_write spec.permission && settings.require_approval_for_writes);
  input_schema = spec.input_schema;
}

-- `sorted` by the qualified names
unfoldable pub insert_spec : ToolSpec → List ToolSpec → List ToolSpec
insert_spec s [] = s ∷ []
insert_spec s (t ∷ ts) =
    let later = t ∷ insert_spec s ts in
    if text_before t.qualified_name s.qualified_name then later else s ∷ t ∷ ts

unfoldable pub sort_specs : List ToolSpec → List ToolSpec
unfolding insert_spec
sort_specs [] = []
sort_specs (s ∷ ss) = insert_spec s (sort_specs ss)

-- `describe_available_tools`
unfoldable pub describe_available_tools : PolicySettings → ToolCatalog → List ToolDescription
unfolding sort_specs specs_of
describe_available_tools settings catalog =
    map (describe_tool settings) (sort_specs (specs_of catalog))
