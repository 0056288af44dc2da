-- ===== src/Execution/Tests.antt =====
-- Runs of the tool execution service with one email server, and the theorems applied to them.
use mcp_business_assistant.Prelude.{
  String, ◌≡◌, ◌≢◌, ◌⊎◌, ◌<◌, refl, Bool, true, false, none, some, [], ◌∷◌, ◌++◌, lookup, insert,
}
use mcp_business_assistant.Errors.{Result, ok, err, crash}
use mcp_business_assistant.Enums.{high_risk, approved, operator}
use mcp_business_assistant.Json.{Fields, obj, str, field, end, get, is_truthy, has_key, items}
use mcp_business_assistant.Core.Payload.{canonical_json, hash_payload, verify_payload}
use mcp_business_assistant.Database.{
  Database, ApprovalRequest, find_approval, is_expired, record_audit, save, update_where,
}
use mcp_business_assistant.Mcp.Types.{ToolCall, ToolSpec, qualify, partition, ok_result}
use mcp_business_assistant.Mcp.Catalog.{Tool, catalog_of, add_specs, build_tool_spec}
use mcp_business_assistant.Mcp.Validation.{
  validate_arguments, missing_required, check_arguments, unknown_arguments,
}
use mcp_business_assistant.Mcp.Validation.Values.{iterate}
use mcp_business_assistant.Mcp.Manager.{
  Connection, connected, replied, Manager, Listing, listed, refresh_catalog, discover, is_connected,
  manager_call_tool, connection_call_tool, to_tool_result,
}
use mcp_business_assistant.Mcp.Manager.Discovery.{refresh_catalog-Holds}
use mcp_business_assistant.Security.Permissions.{
  classify, tool_permissions, is_registered, risk_reason, risk_reasons,
}
use mcp_business_assistant.Security.Policy.{
  PolicyContext, evaluate, first_applicable_rule, risk_rules, recipient_limit, count_recipients,
}
use mcp_business_assistant.Security.Policy.Summary.{
  summarise_action, email_summary, recipient_list, unpack,
}
use mcp_business_assistant.Approval.Service.{
  ApprovalGrant, verify_grant, get_request, verify_integrity, mark_executed, mark_failed,
}
use mcp_business_assistant.Approval.Steps.{here}
use mcp_business_assistant.Execution.Gateway.{Gateway, ExecutionOutcome, run, dispatch, finish}
use mcp_business_assistant.Execution.Execute.{
  execute, execute_approved, approved_call, execute_known, execute_outcome, execute_gated,
}
use mcp_business_assistant.Execution.Authorised.{
  LeavesTrace, IsAuthorised, IsGranted, execute-dispatched,
}
use mcp_business_assistant.Execution.HighRisk.{
  NamesItsTools, high_risk_needs_grant, execute_approved-stored,
}
use mcp_business_assistant.Prelude.Text.{str_ℕ, join}
use mcp_business_assistant.Json.{py_str}
use mcp_business_assistant.Execution.Requests.{IsRequested, execute-IsRequested}
use mcp_business_assistant.Approval.Evolution.{WellFormed}
use mcp_business_assistant.Security.Policy.{PolicyDecision, require_approval}
use mcp_business_assistant.Execution.Spent.{Interleaves, approval_used_once}

abbrev send_email : Tool
send_email = record {
  name = "send_email";
  description = some "Send an email";
  title = none;
  input_schema = none;
  output_schema = none;
  annotations = none;
}

abbrev email_connection : Connection
email_connection = record { name = "email"; state = connected; error = none; has_client = true }

abbrev list_tools : String → Listing
list_tools server = listed (send_email ∷ [])

abbrev manager : Manager
manager =
    refresh_catalog list_tools
      (record { connections = ("email", email_connection) ∷ []; catalog = []; failures = [] })

abbrev gateway : Gateway
gateway = record {
  sha256 = λ s. s;
  settings = record { require_approval_for_writes = false };
  approval_ttl_minutes = 30;
  stack = 10;
  seconds = "30";
  manager = manager;
  respond = λ trace server tool arguments.
      replied (record { content = some "sent" ∷ []; is_error = false; structured_content = none })
        3;
  meanwhile = λ db. db;
  elapsed = 1;
}

names : NamesItsTools gateway
names = refresh_catalog-Holds list_tools _

leaves : LeavesTrace gateway
leaves db = refl

interleaves : Interleaves gateway
interleaves db = here

abbrev email : Fields
email = field "to" (str "ada@example.com") end

abbrev row : ApprovalRequest
row = record {
  id = 0;
  conversation_id = 3;
  user_id = 7;
  tool_name = "email__send_email";
  server_name = "email";
  arguments = email;
  arguments_hash = "{\"to\":\"ada@example.com\"}";
  permission_level = high_risk;
  summary = "Send an email";
  risk_reason = "irreversible";
  tool_call_id = none;
  status = approved;
  created_at = 1;
  expires_at = 100;
  decided_at = some 10;
  decided_by_id = some 7;
  decision_note = none;
  executed_at = none;
  execution_result = none;
  error = none;
}

abbrev table : Database
table = record { approvals = row ∷ []; audit = []; now = 20; next_id = 1; dispatched = [] }

abbrev grant : ApprovalGrant
grant = record {
  approval_id = 0;
  tool_name = "email__send_email";
  server_name = "email";
  arguments = email;
  arguments_hash = "{\"to\":\"ada@example.com\"}";
  approved_by = 7;
  approved_at = 10;
}

abbrev context : PolicyContext
context = record { user_role = operator }

risk : classify "email__send_email" ≡ high_risk
unfolding classify lookup tool_permissions
risk = refl

abbrev after : Result ExecutionOutcome × Database
after = execute gateway (approved_call grant) context (some grant) (some 3) (some 7) table

-- The tool ran once, and the call ended with an outcome.
ran : after.1.dispatched ≡ approved_call grant ∷ []
unfolding execute execute_known execute_outcome execute_gated run dispatch finish verify_grant
    get_request find_approval is_expired verify_integrity verify_payload hash_payload canonical_json
    lookup insert refresh_catalog discover catalog_of add_specs build_tool_spec qualify
    validate_arguments missing_required check_arguments unknown_arguments iterate is_connected get
    is_truthy evaluate first_applicable_rule risk_rules recipient_limit summarise_action classify
    tool_permissions is_registered risk_reason risk_reasons has_key manager_call_tool
    connection_call_tool partition approved_call record_audit save update_where mark_executed
    mark_failed items email_summary recipient_list unpack count_recipients to_tool_result ok_result
ran = refl

is_ok : {A : Type 0} → Result A → Bool
is_ok (ok _) = true
is_ok _ = false

ok_value : {A : Type 0} (x : Result A) → is_ok x ≡ true → (a : A) × (x ≡ ok a)
unfolding is_ok
ok_value (ok a) h = (a, refl)
ok_value (err e) h = absurd (cc)
ok_value crash h = absurd (cc)

ends : (outcome : ExecutionOutcome) × (after.0 ≡ ok outcome)
unfolding execute execute_known execute_outcome execute_gated run dispatch finish verify_grant
    get_request find_approval is_expired verify_integrity verify_payload hash_payload canonical_json
    lookup insert refresh_catalog discover catalog_of add_specs build_tool_spec qualify
    validate_arguments missing_required check_arguments unknown_arguments iterate is_connected get
    is_truthy evaluate first_applicable_rule risk_rules recipient_limit summarise_action classify
    tool_permissions is_registered risk_reason risk_reasons has_key manager_call_tool
    connection_call_tool partition approved_call record_audit save update_where mark_executed
    mark_failed items email_summary recipient_list unpack count_recipients to_tool_result ok_result
    is_ok
ends = ok_value after.0 refl

moved : after.1.dispatched ≢ table.dispatched
moved h = cc (ran, h)

execute-dispatched_example :
    (IsAuthorised gateway (approved_call grant) context (some grant) table
      × (after.1.dispatched ≡ table.dispatched ++ approved_call grant ∷ []))
    ⊎ ((¬ IsAuthorised gateway (approved_call grant) context (some grant) table)
        × (after.1.dispatched ≡ table.dispatched))
execute-dispatched_example =
    execute-dispatched gateway (approved_call grant) (some 3) (some 7) table leaves context
      (some grant)

approved_risk : classify (approved_call grant).tool_name ≡ high_risk
unfolding approved_call
approved_risk = risk

high_risk_needs_grant_example : IsGranted gateway (approved_call grant) (some grant) table
high_risk_needs_grant_example =
    high_risk_needs_grant gateway (approved_call grant) context (some grant) (some 3) (some 7) table
      leaves names approved_risk moved

approval_used_once_example :
    (execute gateway (approved_call grant) context (some grant) none none after.1).1.dispatched
    ≡ after.1.dispatched
approval_used_once_example =
    approval_used_once gateway (approved_call grant) (approved_call grant) context context grant
      grant (some 3) (some 7) none none table after.1 ends.0 interleaves names approved_risk
      approved_risk refl ends.1 moved here

moved_approved : (execute_approved gateway grant context 3 7 table).1.dispatched ≢ table.dispatched
unfolding execute_approved
moved_approved = moved

execute_approved-stored_example :
    (r : ApprovalRequest) × (find_approval grant.approval_id table.approvals ≡ some r)
    × (r.status ≡ approved)
    × (table.now < r.expires_at)
    × (r.tool_name ≡ grant.tool_name)
    × (canonical_json (obj (approved_call grant).arguments) ≡ canonical_json (obj r.arguments))
    × ((execute_approved gateway grant context 3 7 table).1.dispatched
        ≡ table.dispatched ++ approved_call grant ∷ [])
execute_approved-stored_example =
    execute_approved-stored gateway grant context 3 7 table leaves names (λ a b e. e) risk
      moved_approved

-- The same call without a grant, on an empty table.
abbrev proposed : ToolCall
proposed = record { id = "call_1"; tool_name = "email__send_email"; arguments = email }

abbrev empty : Database
empty = record { approvals = []; audit = []; now = 20; next_id = 0; dispatched = [] }

empty-WellFormed : WellFormed empty
unfolding find_approval
empty-WellFormed = record { keyed = tt; fresh = λ k h. refl }

abbrev email_spec : ToolSpec
email_spec = build_tool_spec "email" send_email

abbrev asking : PolicyDecision
asking = record {
  outcome = require_approval;
  permission = high_risk;
  tool_name = "email__send_email";
  reason = "This action is high risk and needs explicit human approval.";
  summary = "Send an email with the subject '(no subject)' to 1 recipient(s): ada@example.com.";
  risk_reason = "Sending an email is irreversible and visible to people outside the company.";
}

found : lookup proposed.tool_name gateway.manager.catalog ≡ some email_spec
unfolding lookup insert refresh_catalog discover catalog_of add_specs is_connected build_tool_spec
    qualify
found = refl

valid : validate_arguments 10 email_spec.input_schema email ≡ some []
unfolding validate_arguments missing_required check_arguments unknown_arguments iterate get
    is_truthy items build_tool_spec has_key
valid = refl

decided : evaluate gateway.settings email_spec email context ≡ ok asking
unfolding evaluate first_applicable_rule risk_rules recipient_limit summarise_action classify
    tool_permissions is_registered risk_reason risk_reasons has_key build_tool_spec qualify lookup
    email_summary recipient_list unpack count_recipients get is_truthy items str_ℕ join py_str
decided = refl

execute-IsRequested_example :
    (outcome : ExecutionOutcome) × ((execute gateway proposed context none
        (some 3)
        (some 7)
        empty).0
      ≡ ok outcome)
    × IsRequested gateway proposed asking 3 7 empty
        (execute gateway proposed context none (some 3) (some 7) empty).1
        outcome
execute-IsRequested_example =
    execute-IsRequested gateway proposed context email_spec asking 3 7 empty empty-WellFormed found
      valid decided refl
