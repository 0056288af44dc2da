-- ===== src/Api/Approvals.antt =====
-- app/api/routes/approvals.py. The user is the one that the dependencies resolved, the world holds
-- the tables of the request's session. The conversations stand apart, and no endpoint here changes
-- which there are.
use mcp_business_assistant.Prelude.{
  ℕ, String, false, Option, none, some, List, [], ◌∷◌, map, length, is_empty,
}
use mcp_business_assistant.Prelude.Text.{str_uuid}
use mcp_business_assistant.Errors.{Result}
use mcp_business_assistant.Database.{Database, ApprovalRequest, User}
use mcp_business_assistant.Approval.Service.{
  ApprovalGrant, get_request, list_pending, assert_can_view, confirm, reject,
}
use mcp_business_assistant.Conversation.Ownership.{Conversation, get_or_create}
use mcp_business_assistant.Agent.World.{
  AgentDependencies, Run, pure, ◌>>=◌, ◌>>◌, reads, on_database,
}
use mcp_business_assistant.Agent.Runner.{AgentRunResult, set_status, resume_after_approval}
use mcp_business_assistant.Api.Answers.{
  ApprovalOut, to_out, ApprovalListResponse, ApprovalDecisionResponse,
}

abbrev pub listed : List ApprovalOut → ApprovalListResponse
listed approvals = record { approvals = approvals; count = length approvals }

-- `list_approvals`; the filter is absent, no UUID (the inner `none`) or a UUID.
unfoldable pub list_approvals : User → Option (Option ℕ) → ℕ → Database → ApprovalListResponse
list_approvals user (some none) limit db = listed []
list_approvals user (some (some scope)) limit db =
    listed (map to_out (list_pending user (some scope) limit db))
list_approvals user none limit db = listed (map to_out (list_pending user none limit db))

-- `get_approval`
unfoldable pub get_approval : ℕ → User → Run ApprovalOut
get_approval approval_id user = do
  request ← on_database (get_request approval_id)
  on_database (assert_can_view request user)
  pure (to_out request)

-- What a service found elsewhere.
abbrev pub given : {A : Type 0} → Result A → Run A
given r w = (r, w)

abbrev pub first_error : List String → Option String
first_error [] = none
first_error (e ∷ _) = some e

-- `ApprovalDecisionResponse(…)` of `confirm_approval`
abbrev pub confirmed_response : ApprovalRequest → AgentRunResult → ApprovalDecisionResponse
confirmed_response refreshed result = record {
  approval = to_out refreshed;
  executed = is_empty result.errors;
  conversation_id = str_uuid result.conversation_id;
  response = some result.response;
  error = first_error result.errors;
}

-- `confirm_approval` from the confirmation on. The agent works on the conversation of the request.
unfoldable pub run_confirmed :
    AgentDependencies
    → List Conversation
    → User
    → ApprovalRequest × ApprovalGrant
    → Run ApprovalDecisionResponse
run_confirmed deps conversations user (request, grant) = do
  next_id ← reads (λ w. w.database.next_id)
  conversation ←
      given ((get_or_create conversations next_id user (some request.conversation_id) none).0)
  set_status conversation.status
  result ←
      resume_after_approval (record deps { conversation_id = conversation.id }) user.id user.role
        grant
  refreshed ← on_database (get_request request.id)
  pure (confirmed_response refreshed result)

-- `confirm_approval`; `between` is what other sessions do while `confirm` works on the row.
unfoldable pub confirm_approval :
    AgentDependencies
    → (Database → Database)
    → List Conversation
    → ℕ
    → User
    → Option String
    → Run ApprovalDecisionResponse
confirm_approval deps between conversations approval_id user note = do
  confirmed ← on_database (confirm deps.gateway.sha256 between approval_id user note)
  run_confirmed deps conversations user confirmed

-- `ApprovalDecisionResponse(…)` of `reject_approval`
abbrev pub rejected_response : ApprovalRequest → ApprovalDecisionResponse
rejected_response request = record {
  approval = to_out request;
  executed = false;
  conversation_id = str_uuid request.conversation_id;
  response = some "The action was rejected and will not be performed.";
  error = none;
}

-- `reject_approval`
unfoldable pub reject_approval :
    (Database → Database) → ℕ → User → Option String → Run ApprovalDecisionResponse
reject_approval between approval_id user note = do
  request ← on_database (reject between approval_id user note)
  pure (rejected_response request)
