-- ===== src/Api/Tests.antt =====
-- Requests to the endpoints with one email server, and the theorems applied to them.
use mathlib.Core.List.{Memᴰ}
use mcp_business_assistant.Prelude.{
  Bool, map, insert, lookup, ◌≢◌, All, ap, sym, ◌∙◌, Option, String, arith, ◌≡◌, refl, ◌⊎◌, true,
  false, none, some, [], ◌∷◌, ◌++◌, List,
}
use mcp_business_assistant.Enums.{ApprovalStatus, high_risk, operator, viewer, awaiting_approval}
use mcp_business_assistant.Errors.{ok, llm_error, app_error, err}
use mcp_business_assistant.Json.{str, field, end}
use mcp_business_assistant.Database.{
  ApprovalRequest, User, find_approval, update_where, count_where, can_approve,
}
use mcp_business_assistant.Mcp.Types.{ToolCall}
use mcp_business_assistant.Mcp.Catalog.{Tool}
use mcp_business_assistant.Mcp.Manager.{Connection, connected, replied, listed, refresh_catalog}
use mcp_business_assistant.Approval.Repository.{refuse, reject_pending}
use mcp_business_assistant.Approval.Service.{
  reject, reject_read, reject_row, get_request, refresh, assert_can_decide,
}
use mcp_business_assistant.Approval.Evolution.{WellFormed}
use mcp_business_assistant.Approval.Steps.{here}
use mcp_business_assistant.Conversation.Ownership.{Conversation}
use mcp_business_assistant.Execution.Gateway.{Gateway}
use mcp_business_assistant.Agent.World.{AgentDependencies, World}
use mcp_business_assistant.Api.Answers.{ApprovalDecisionResponse}
use mcp_business_assistant.Api.Approvals.{confirm_approval, reject_approval, rejected_response}
use mcp_business_assistant.Prelude.Text.{strip}
use mcp_business_assistant.Prelude.Letters.{lower_text}
use mcp_business_assistant.Api.Accounts.{
  Account, AuthSettings, has_hash, key_required, key_invalid, get_current_user, get_by_api_key,
  get_by_email, create_user, get_or_create_user,
}
use mcp_business_assistant.Api.Authentication.{HashesDiffer, Enters, get_current_user-cases}
use mcp_business_assistant.Mcp.Types.{qualify}
use mcp_business_assistant.Mcp.Catalog.{
  catalog_of, add_specs, specs_of, build_tool_spec, by_permission,
}
use mcp_business_assistant.Mcp.Catalog.Laws.{IsLocal, build_tool_spec-IsLocal}
use mcp_business_assistant.Mcp.Manager.{discover, is_connected}
use mcp_business_assistant.Security.Permissions.{classify, tool_permissions}
use mcp_business_assistant.Execution.Execute.{sort_specs, insert_spec}
use mcp_business_assistant.Api.Tools.{ToolOut, listed_tools}
use mcp_business_assistant.Api.Announced.{IsAnnounced, listed_tools-IsAnnounced}
use mcp_business_assistant.Api.Silent.{IsQuiet}
use mcp_business_assistant.Api.Confirmation.{IsStoredCall, confirm_approval-sends}
use mcp_business_assistant.Api.Rejection.{rejected_never_sent}

abbrev send_email : Tool
send_email = record {
  name = "send_email";
  description = some "Send an email";
  title = none;
  input_schema = none;
  output_schema = none;
  annotations = none;
}

abbrev email_connection : Connection
email_connection = record { name = "email"; state = connected; error = none; has_client = true }

-- A digest without collisions, and a server that sends every email.
abbrev gateway : Gateway
gateway = record {
  sha256 = λ s. s;
  settings = record { require_approval_for_writes = false };
  approval_ttl_minutes = 30;
  stack = 10;
  seconds = "30";
  manager =
      refresh_catalog (λ server. listed (send_email ∷ []))
        (record { connections = ("email", email_connection) ∷ []; catalog = []; failures = [] });
  respond = λ trace server tool arguments.
      replied (record { content = some "sent" ∷ []; is_error = false; structured_content = none })
        3;
  meanwhile = λ db. db;
  elapsed = 1;
}

-- The model cannot be reached.
abbrev deps : AgentDependencies
deps = record {
  gateway = gateway;
  complete = λ asked prompt. err (app_error llm_error "The model is unavailable.");
  thinking = λ db. db;
  arriving = λ ms. ms;
  conversation_id = 3;
  history_limit = 20;
  agent_max_iterations = 6;
  recursion_limit = 25;
  exception_name = "RuntimeError";
}

quiet : IsQuiet deps
quiet = record { leaves = λ db. refl; thinks = λ db. refl }

abbrev row : ApprovalRequest
row = record {
  id = 0;
  conversation_id = 3;
  user_id = 7;
  tool_name = "email__send_email";
  server_name = "email";
  arguments = field "to" (str "ada@example.com") end;
  arguments_hash = "{\"to\":\"ada@example.com\"}";
  permission_level = high_risk;
  summary = "Send an email";
  risk_reason = "irreversible";
  tool_call_id = none;
  status = ApprovalStatus.pending;
  created_at = 1;
  expires_at = 100;
  decided_at = none;
  decided_by_id = none;
  decision_note = none;
  executed_at = none;
  execution_result = none;
  error = none;
}

abbrev ada : User
ada = record { id = 7; email = "ada@example.com"; role = operator; is_active = true }

abbrev conversations : List Conversation
conversations = record { id = 3; user_id = 7; title = none; status = awaiting_approval } ∷ []

abbrev world : World
world = record {
  database = record { approvals = row ∷ []; audit = []; now = 10; next_id = 1; dispatched = [] };
  messages = [];
  conversation_status = awaiting_approval;
  asked = [];
  needs_rollback = false;
}

table-WellFormed : WellFormed world.database
unfolding find_approval
table-WellFormed = record { keyed = (refl, tt); fresh = λ k h. ground arith }

confirm_approval-sends_example :
    ((confirm_approval deps (λ db. db) conversations 0 ada none world).1.database.dispatched ≡ [])
    ⊎ ((call : ToolCall) × IsStoredCall (λ s. s) 0 ada world.database call
        × ((confirm_approval deps (λ db. db) conversations 0 ada none world).1.database.dispatched
            ≡ [] ++ call ∷ []))
confirm_approval-sends_example =
    confirm_approval-sends deps (λ db. db) conversations 0 ada none world quiet (λ db. here)
      table-WellFormed

abbrev rejection : ApprovalDecisionResponse
rejection = rejected_response (refuse 10 7 none row)

reject_approval_test : (reject_approval (λ db. db) 0 ada none world).0 ≡ ok rejection
unfolding reject_approval reject reject_read reject_row reject_pending get_request refresh
    assert_can_decide can_approve find_approval update_where count_where
reject_approval_test = refl

-- The world after the rejection.
abbrev after : World
after = (reject_approval (λ db. db) 0 ada none world).1

rejected_never_sent_example :
    (confirm_approval deps (λ db. db) conversations 0 ada none after).1.database.dispatched
    ≡ after.database.dispatched
rejected_never_sent_example =
    rejected_never_sent deps (λ db. db) (λ db. db) conversations 0 ada ada none none world after
      rejection quiet (λ db. here) (λ db. here) table-WellFormed reject_approval_test here

abbrev accounts : List Account
accounts =
    record { user = ada; full_name = none; api_key_hash = some "mba_1" }
    ∷ record {
      user = record { id = 8; email = "bob@example.com"; role = viewer; is_active = false };
      full_name = some "Bob";
      api_key_hash = some "mba_2";
    }
    ∷ []

abbrev settings : AuthSettings
settings = record { auth_enabled = true; demo_user_email = " Demo@Example.com" }

accounts-HashesDiffer : HashesDiffer accounts
accounts-HashesDiffer = (
  (
    λ hash h k.
        let differ : true ≡ false = ap (has_hash "mba_1") (h ∙ sym k) in absurd (cc (differ)),
    tt,
  ),
  (tt, tt),
)

get_current_user_test :
    (get_current_user (λ s. s) settings (some "mba_1") 9 accounts ≡ (ok ada, accounts))
    × (get_current_user (λ s. s) settings (some "mba_2") 9 accounts ≡ (err key_invalid, accounts))
    × (get_current_user (λ s. s) settings (some "mba_3") 9 accounts ≡ (err key_invalid, accounts))
unfolding get_current_user get_by_api_key
get_current_user_test = (refl, refl, refl)

demo_user_test :
    (get_current_user (λ s. s) (record settings { auth_enabled = false }) none 9 accounts).0
    ≡ ok (record { id = 9; email = "demo@example.com"; role = operator; is_active = true })
unfolding get_current_user get_or_create_user get_by_email create_user strip lower_text
demo_user_test = refl

get_current_user-cases_example :
    (((◌≡◌ {A = Option String} (some "mba_1") none)
        ⊎ (◌≡◌ {A = Option String} (some "mba_1") (some "")))
      × (get_current_user (λ s. s) settings (some "mba_1") 9 accounts
          ≡ (err key_required, accounts)))
    ⊎ ((key : String) × (◌≡◌ {A = Option String} (some "mba_1") (some key))
        × (key ≢ "")
        × (((a : Account) × Memᴰ a accounts
              × Enters (λ s. s) key a
              × (get_current_user (λ s. s) settings (some "mba_1") 9 accounts
                  ≡ (ok a.user, accounts)))
            ⊎ (All (λ a. ¬ Enters (λ s. s) key a) accounts
                × (get_current_user (λ s. s) settings (some "mba_1") 9 accounts
                    ≡ (err key_invalid, accounts)))))
get_current_user-cases_example =
    get_current_user-cases (λ s. s) settings (some "mba_1") 9 accounts refl accounts-HashesDiffer

catalog-IsLocal : All IsLocal (specs_of gateway.manager.catalog)
unfolding refresh_catalog discover catalog_of add_specs specs_of insert is_connected build_tool_spec
catalog-IsLocal = (build_tool_spec-IsLocal "email" send_email, tt)

list_tools_test :
    map {B = String × Bool}
      (λ (t : ToolOut). (t.name, t.requires_approval))
      (listed_tools gateway.settings (some high_risk) gateway.manager).tools
    ≡ ("email__send_email", true) ∷ []
unfolding listed_tools sort_specs insert_spec by_permission refresh_catalog discover catalog_of
    add_specs specs_of insert is_connected build_tool_spec qualify classify lookup tool_permissions
list_tools_test = refl

listed_tools-IsAnnounced_example :
    All
      (IsAnnounced gateway.settings)
      (listed_tools gateway.settings (some high_risk) gateway.manager).tools
listed_tools-IsAnnounced_example =
    listed_tools-IsAnnounced gateway.settings (some high_risk) gateway.manager catalog-IsLocal
