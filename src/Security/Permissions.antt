-- ===== src/Security/Permissions.antt =====
-- app/security/permissions.py: the registry of tool permissions.
use mcp_business_assistant.Prelude.{
  String, Bool, none, some, [], ◌∷◌, Dict, lookup, contains, or_else, if◌then◌else◌,
}
use mcp_business_assistant.Enums.{PermissionLevel, read, write, high_risk}
use mcp_business_assistant.Mcp.Types.{qualify}

-- `DEFAULT_PERMISSION`
abbrev pub default_permission : PermissionLevel
default_permission = high_risk

-- `TOOL_PERMISSIONS`
unfoldable pub tool_permissions : Dict PermissionLevel
unfolding qualify
tool_permissions =
    (qualify "crm" "get_leads", read)
    ∷ (qualify "crm" "get_lead", read)
    ∷ (qualify "crm" "search_leads", read)
    ∷ (qualify "crm" "create_lead", write)
    ∷ (qualify "crm" "update_lead_status", write)
    ∷ (qualify "tasks" "get_tasks", read)
    ∷ (qualify "tasks" "get_overdue_tasks", read)
    ∷ (qualify "tasks" "create_task", write)
    ∷ (qualify "tasks" "complete_task", write)
    ∷ (qualify "spreadsheets" "get_sales_summary", read)
    ∷ (qualify "spreadsheets" "generate_weekly_report", read)
    ∷ (qualify "spreadsheets" "add_sales_record", write)
    ∷ (qualify "calendar" "get_todays_meetings", read)
    ∷ (qualify "calendar" "get_events", read)
    ∷ (qualify "calendar" "create_event", high_risk)
    ∷ (qualify "email" "draft_email", read)
    ∷ (qualify "email" "send_email", high_risk)
    ∷ []

-- `RISK_REASONS`
unfoldable pub risk_reasons : Dict String
unfolding qualify
risk_reasons =
    (
      qualify "email" "send_email",
      "Sending an email is irreversible and visible to people outside the company.",
    )
    ∷ (
      qualify "calendar" "create_event",
      "Booking a meeting places an entry on other people's calendars and notifies attendees.",
    )
    ∷ (qualify "crm" "create_lead", "This adds a new record to the CRM.")
    ∷ (qualify "crm" "update_lead_status", "This changes a lead's stage in the sales pipeline.")
    ∷ (qualify "tasks" "create_task", "This creates a task others may act on.")
    ∷ (qualify "tasks" "complete_task", "This marks work as finished.")
    ∷ (qualify "spreadsheets" "add_sales_record", "This writes a new row into the sales records.")
    ∷ []

-- `PERMISSION_DESCRIPTIONS`, and `describe`
unfoldable pub describe : PermissionLevel → String
describe read = "Reads data without changing anything. Runs automatically."
describe write =
    "Changes business data inside the system. Runs automatically unless REQUIRE_APPROVAL_FOR_WRITES is enabled."
describe high_risk = "Irreversible or externally visible. Always requires explicit human approval."

unfoldable pub classify : String → PermissionLevel
classify name = or_else (lookup name tool_permissions) default_permission

unfoldable pub is_registered : String → Bool
is_registered name = contains name tool_permissions

abbrev unclassified_reason : String
unclassified_reason =
    "This tool is not in the permission registry, so it is treated as high risk until it has been reviewed and classified."

unfoldable pub risk_reason : String → String
risk_reason name = elim (lookup name risk_reasons) [
  | some reason ↦ reason
  | none ↦ if is_registered name then describe (classify name) else unclassified_reason
]
