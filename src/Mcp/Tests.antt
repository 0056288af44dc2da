-- ===== src/Mcp/Tests.antt =====
-- Tool names on concrete texts, and their theorems applied.
use mcp_business_assistant.Prelude.{
  Dict, String, ◌≡◌, refl, true, false, none, some, [], ◌∷◌, lookup, insert, arith, eq_iff,
}
use mcp_business_assistant.Prelude.Text.{◌⊕◌}
use mcp_business_assistant.Mcp.Config.{build_child_env, selected, wanted, server_env_vars, value_of}
use mcp_business_assistant.Mcp.Types.{qualify, split_qualified, ToolSpec}
use mcp_business_assistant.Mcp.Catalog.{Tool, build_tool_spec}
use mcp_business_assistant.Mcp.Manager.{Listing, listed, Connection, connected, Manager}
use mcp_business_assistant.Mcp.Types.Names.{has_separator, split_qualified-qualify}

no_separator : has_separator ("crm" ⊕ "_") ≡ false
unfolding has_separator
no_separator = refl

splits : split_qualified "crm__get_leads" ≡ some ("crm", "get_leads")
unfolding split_qualified
splits = refl

unqualified : split_qualified "get_leads" ≡ none
unfolding split_qualified
unqualified = refl

split_qualified-qualify_example :
    split_qualified (qualify "crm" "get_leads") ≡ some ("crm", "get_leads")
split_qualified-qualify_example =
    split_qualified-qualify "crm" "get_leads" no_separator (ground (arith, eq_iff "crm" ""))
      (ground (arith, eq_iff "get_leads" ""))

-- Discovery with one server that lists one tool which the registry does not know.
abbrev export_tool : Tool
export_tool = record {
  name = "export";
  description = none;
  title = none;
  input_schema = none;
  output_schema = none;
  annotations = some (some true, none);
}

abbrev list_tools : String → Listing
list_tools server = listed (export_tool ∷ [])

abbrev connection : Connection
connection = record { name = "crm"; state = connected; error = none; has_client = true }

abbrev idle : Manager
idle = record { connections = ("crm", connection) ∷ []; catalog = []; failures = [] }

abbrev export_spec : ToolSpec
export_spec = build_tool_spec "crm" export_tool

-- The environment of the email server: the token of the CRM stays out.
abbrev parent : Dict String
parent =
    ("HUBSPOT_ACCESS_TOKEN", "secret")
    ∷ ("SMTP_HOST", "mail.example.com")
    ∷ ("SMTP_PASSWORD", "")
    ∷ ("LOG_LEVEL", "INFO")
    ∷ []

email_environment :
    build_child_env "/srv/app" ":" parent "email"
    ≡ ("LOG_LEVEL", "INFO") ∷ ("SMTP_HOST", "mail.example.com") ∷ ("PYTHONPATH", "/srv/app") ∷ []
unfolding build_child_env selected wanted server_env_vars value_of lookup insert
email_environment = refl
