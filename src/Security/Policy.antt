-- ===== src/Security/Policy.antt =====
-- app/security/policy.py: the authorisation decision for a proposed tool call.
pub mod Summary
pub mod Gating
pub mod Independence
use mathlib.Core.Option
use mcp_business_assistant.Prelude.{
  ℕ, String, Bool, true, false, not, ◌&&◌, Option, none, some, length, ltb, str_eq, if◌then◌else◌,
}
use mcp_business_assistant.Prelude.Text.{◌⊕◌, str_ℕ}
use mcp_business_assistant.Enums.{
  UserRole, PermissionLevel, is_viewer, is_read, is_write, is_high_risk,
}
use mcp_business_assistant.Errors.{Result, ok, err, crash}
use mcp_business_assistant.Json.{Fields, has_key}
use mcp_business_assistant.Mcp.Types.{ToolSpec}
use mcp_business_assistant.Security.Permissions.{classify, risk_reason}
use Summary.{summarise_action, recipient_list}

abbrev pub max_email_recipients_hard_limit : ℕ
max_email_recipients_hard_limit = 50

abbrev pub malformed_arguments_key : String
malformed_arguments_key = "__malformed_arguments__"

pub data PolicyOutcome : Type 0 where
  allow require_approval deny : PolicyOutcome

-- The user and conversation ids of `PolicyContext` decide nothing and are left out.
pub record PolicyContext : Type 0 where
  pub user_role : UserRole

pub record PolicyDecision : Type 0 where
  pub outcome : PolicyOutcome
  pub permission : PermissionLevel
  pub tool_name : String
  pub reason : String
  pub summary : String
  pub risk_reason : String

-- The part of the settings that the policy reads.
pub record PolicySettings : Type 0 where
  pub require_approval_for_writes : Bool

abbrev decide :
    ToolSpec → PermissionLevel → String → String → PolicyOutcome → String → PolicyDecision
decide spec permission summary risk outcome reason = record {
  outcome = outcome;
  permission = permission;
  tool_name = spec.qualified_name;
  reason = reason;
  summary = summary;
  risk_reason = risk;
}

-- `_count_recipients`; `none` is a `TypeError`.
unfoldable pub count_recipients : Fields → Option ℕ
count_recipients arguments = Option.map length (recipient_list arguments)

abbrev pub too_many_reason : ℕ → String
too_many_reason n =
    "Refusing to email "
    ⊕ str_ℕ n
    ⊕ " recipients in one action; the hard limit is "
    ⊕ str_ℕ max_email_recipients_hard_limit
    ⊕ "."

-- The risk-based rules, with which `_first_applicable_rule` ends.
unfoldable pub risk_rules : PolicySettings → PermissionLevel → PolicyOutcome × String
risk_rules settings permission =
    if is_high_risk permission
    then (require_approval, "This action is high risk and needs explicit human approval.")
    else if is_write permission && settings.require_approval_for_writes
    then (require_approval, "Write actions require confirmation in this deployment.")
    else if is_write permission
    then (allow, "Write actions are permitted automatically here.")
    else (allow, "Read-only action.")

abbrev pub check_limit : Option ℕ → Result (Option String)
check_limit none = crash
check_limit (some n) =
    ok (if ltb max_email_recipients_hard_limit n then some (too_many_reason n) else none)

-- The hard limit on an email's recipients: `none` lets the call pass to the next rule.
unfoldable pub recipient_limit : ToolSpec → Fields → Result (Option String)
recipient_limit spec arguments =
    if str_eq spec.qualified_name "email__send_email"
    then check_limit (count_recipients arguments)
    else ok none

-- `_first_applicable_rule`, as the outcome and the reason
unfoldable pub first_applicable_rule :
    PolicySettings
    → ToolSpec
    → Fields
    → PolicyContext
    → PermissionLevel
    → Result (PolicyOutcome × String)
first_applicable_rule settings spec arguments context permission =
    if has_key malformed_arguments_key arguments
    then ok (deny, "The model produced arguments that were not valid JSON.")
    else if is_viewer context.user_role && not (is_read permission)
    then ok (deny, "Your role only permits read-only tools.")
    else elim (recipient_limit spec arguments) [
      | ok (some reason) ↦ ok (deny, reason)
      | ok none ↦ ok (risk_rules settings permission)
      | err e ↦ err e
      | crash ↦ crash
    ]

-- `PolicyEngine.evaluate`
unfoldable pub evaluate : PolicySettings → ToolSpec → Fields → PolicyContext → Result PolicyDecision
evaluate settings spec arguments context =
    let permission = classify spec.qualified_name in
    elim (summarise_action spec arguments) [
      | none ↦ crash
      | some summary ↦ elim (first_applicable_rule settings spec arguments context permission) [
        | ok (outcome, reason) ↦
            ok (decide spec permission summary (risk_reason spec.qualified_name) outcome reason)
        | err e ↦ err e
        | crash ↦ crash
      ]
    ]
