-- ===== src/Security/Tests.antt =====
-- The policy on concrete calls, and its theorems applied to them.
use mcp_business_assistant.Prelude.{
  ◌≤◌, String, ◌≡◌, ◌≢◌, ◌↔◌, ◌⊎◌, refl, Bool, true, false, none, some, lookup, contains,
}
use mcp_business_assistant.Errors.{ok}
use mcp_business_assistant.Enums.{
  PermissionLevel, read, write, high_risk, viewer, operator, is_viewer,
}
use mcp_business_assistant.Json.{
  Fields, str, field, end, get, has_key, is_truthy, py_str, entries, shown,
}
use mcp_business_assistant.Prelude.Text.{join, str_ℕ}
use mcp_business_assistant.Mcp.Types.{ToolSpec}
use mcp_business_assistant.Security.Permissions.{
  classify, is_registered, tool_permissions, risk_reasons, risk_reason,
}
use mcp_business_assistant.Security.Policy.{
  PolicySettings, PolicyContext, PolicyDecision, PolicyOutcome, allow, require_approval, deny,
  evaluate, first_applicable_rule, risk_rules, recipient_limit, count_recipients,
  malformed_arguments_key,
}
use mcp_business_assistant.Security.Policy.Summary.{
  recipient_list, unpack, summarise_action, email_summary, lead_summary, other_summary,
  sort_entries,
}
use mcp_business_assistant.Security.Policy.Gating.{
  WithinLimit, evaluate_allows_iff, evaluate_denies,
}
use mcp_business_assistant.Security.Policy.Independence.{
  strictness, evaluate_unregistered, evaluate_monotone,
}

abbrev spec_of : String → String → String → ToolSpec
spec_of qualified name server = record {
  qualified_name = qualified;
  name = name;
  server = server;
  description = "a tool";
  input_schema = end;
  permission = read;
  output_schema = none;
  title = none;
  server_read_only_hint = some true;
  server_destructive_hint = none;
}

abbrev send_email : ToolSpec
send_email = spec_of "email__send_email" "send_email" "email"

abbrev create_lead : ToolSpec
create_lead = spec_of "crm__create_lead" "create_lead" "crm"

-- A tool that no registry knows; its server calls it read-only.
abbrev drop_table : ToolSpec
drop_table = spec_of "crm__drop_table" "drop_table" "crm"

abbrev to_ada : Fields
to_ada = field "to" (str "ada@example.com") (field "subject" (str "Hello") end)

abbrev lenient : PolicySettings
lenient = record { require_approval_for_writes = false }

abbrev strict : PolicySettings
strict = record { require_approval_for_writes = true }

abbrev by_operator : PolicyContext
by_operator = record { user_role = operator }

abbrev by_viewer : PolicyContext
by_viewer = record { user_role = viewer }

abbrev decision :
    PolicyOutcome → PermissionLevel → String → String → String → String → PolicyDecision
decision outcome permission tool reason summary risk = record {
  outcome = outcome;
  permission = permission;
  tool_name = tool;
  reason = reason;
  summary = summary;
  risk_reason = risk;
}

abbrev lead_allowed : PolicyDecision
lead_allowed =
    decision allow write "crm__create_lead" "Write actions are permitted automatically here."
      "Create a CRM lead for None (None) at no company." "This adds a new record to the CRM."

lead_by_operator : evaluate lenient create_lead end by_operator ≡ ok lead_allowed
unfolding evaluate classify tool_permissions risk_reason risk_reasons lookup first_applicable_rule
    recipient_limit risk_rules has_key summarise_action lead_summary get shown py_str is_truthy
lead_by_operator = refl

abbrev email_waits : PolicyDecision
email_waits =
    decision require_approval high_risk "email__send_email"
      "This action is high risk and needs explicit human approval."
      "Send an email with the subject 'Hello' to 1 recipient(s): ada@example.com."
      "Sending an email is irreversible and visible to people outside the company."

email_by_operator : evaluate lenient send_email to_ada by_operator ≡ ok email_waits
unfolding evaluate classify tool_permissions risk_reason risk_reasons lookup first_applicable_rule
    recipient_limit count_recipients risk_rules has_key summarise_action email_summary get
    recipient_list unpack is_truthy py_str join str_ℕ
email_by_operator = refl

abbrev lead_refused : PolicyDecision
lead_refused = record lead_allowed {
  outcome = deny;
  reason = "Your role only permits read-only tools.";
}

lead_by_viewer : evaluate lenient create_lead end by_viewer ≡ ok lead_refused
unfolding evaluate classify tool_permissions risk_reason risk_reasons lookup first_applicable_rule
    recipient_limit risk_rules has_key summarise_action lead_summary get shown py_str is_truthy
lead_by_viewer = refl

abbrev lead_waits : PolicyDecision
lead_waits = record lead_allowed {
  outcome = require_approval;
  reason = "Write actions require confirmation in this deployment.";
}

lead_strictly : evaluate strict create_lead end by_operator ≡ ok lead_waits
unfolding evaluate classify tool_permissions risk_reason risk_reasons lookup first_applicable_rule
    recipient_limit risk_rules has_key summarise_action lead_summary get shown py_str is_truthy
lead_strictly = refl

abbrev drop_waits : PolicyDecision
drop_waits =
    decision require_approval high_risk "crm__drop_table"
      "This action is high risk and needs explicit human approval."
      "Run crm__drop_table with no arguments."
      "This tool is not in the permission registry, so it is treated as high risk until it has been reviewed and classified."

drop_by_operator : evaluate lenient drop_table end by_operator ≡ ok drop_waits
unfolding evaluate classify tool_permissions risk_reason risk_reasons lookup first_applicable_rule
    recipient_limit risk_rules has_key summarise_action other_summary entries sort_entries join
    is_registered contains
drop_by_operator = refl

evaluate_allows_iff_example : (allow ≡ allow) ↔ (
    (has_key malformed_arguments_key end ≡ false)
    × WithinLimit create_lead end
    × ((classify "crm__create_lead" ≡ read)
        ⊎ ((classify "crm__create_lead" ≡ write)
            × (is_viewer operator ≡ false)
            × (◌≡◌ {A = Bool} false false))))
evaluate_allows_iff_example =
    evaluate_allows_iff lenient create_lead end by_operator lead_by_operator

evaluate_denies_example : (deny ≡ deny) ↔ (
    (has_key malformed_arguments_key end ≡ true)
    ⊎ ((viewer ≡ viewer) × (classify "crm__create_lead" ≢ read))
    ⊎ ¬ WithinLimit create_lead end)
evaluate_denies_example = evaluate_denies lenient create_lead end by_viewer lead_by_viewer

drop_unregistered : is_registered "crm__drop_table" ≡ false
unfolding is_registered tool_permissions contains
drop_unregistered = refl

evaluate_unregistered_example : (high_risk ≡ high_risk) × (require_approval ≢ allow)
evaluate_unregistered_example =
    evaluate_unregistered lenient drop_table end by_operator drop_unregistered drop_by_operator

evaluate_monotone_example : strictness allow ≤ strictness require_approval
evaluate_monotone_example =
    evaluate_monotone lenient create_lead end by_operator lead_by_operator lead_strictly
