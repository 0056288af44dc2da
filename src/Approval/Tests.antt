-- ===== src/Approval/Tests.antt =====
-- Runs of the approval service on a small table, and the theorems applied to them.
use mcp_business_assistant.Prelude.{
  ◌+◌, String, ◌≡◌, ◌≢◌, ◌↔◌, ◌<◌, refl, ap, true, none, some, [], ◌∷◌, arith,
}
use mcp_business_assistant.Errors.{Result, ok}
use mcp_business_assistant.Enums.{ApprovalStatus, high_risk, operator, is_pending}
use mcp_business_assistant.Json.{Fields, str, field, end}
use mcp_business_assistant.Core.Payload.{canonical_json, hash_payload, verify_payload}
use mcp_business_assistant.Database.{
  Database, ApprovalRequest, User, find_approval, update_where, count_where, can_approve,
  is_expired, is_expired,
}
use mcp_business_assistant.Approval.Repository.{claim, claim_pending}
use mcp_business_assistant.Approval.Service.{
  ApprovalGrant, grant_of, confirm_read, verify_integrity, assert_can_decide, claim_row, mint_grant,
  refresh, verify_grant,
}
use mcp_business_assistant.Approval.Evolution.{WellFormed, After}
use mcp_business_assistant.Approval.Confirm.{Passed, confirm_read-ok}
use mcp_business_assistant.Approval.Steps.{
  Step, Reach, here, next, waiting, rows_evolve, confirm_once,
}
use mcp_business_assistant.Approval.Grant.{IsHonoured, verify_grant-ok_iff}

-- A digest with no collisions.
abbrev digest : String → String
digest s = s

abbrev email : Fields
email = field "to" (str "ada@example.com") end

abbrev ada : User
ada = record { id = 7; email = "ada@example.com"; role = operator; is_active = true }

abbrev row : ApprovalRequest
row = record {
  id = 0;
  conversation_id = 3;
  user_id = 7;
  tool_name = "email__send_email";
  server_name = "email";
  arguments = email;
  arguments_hash = "{\"to\":\"ada@example.com\"}";
  permission_level = high_risk;
  summary = "Send an email";
  risk_reason = "irreversible";
  tool_call_id = none;
  status = ApprovalStatus.pending;
  created_at = 1;
  expires_at = 100;
  decided_at = none;
  decided_by_id = none;
  decision_note = none;
  executed_at = none;
  execution_result = none;
  error = none;
}

abbrev table : Database
table = record { approvals = row ∷ []; audit = []; now = 10; next_id = 1; dispatched = [] }

abbrev claimed : ApprovalRequest
claimed = claim 10 7 none row

abbrev grant : ApprovalGrant
grant = grant_of claimed ada 10

table-WellFormed : WellFormed table
unfolding find_approval
table-WellFormed = record { keyed = (refl, tt); fresh = λ k h. ground arith }

confirmed : (confirm_read digest row 10 ada none table).0 ≡ ok (claimed, grant)
unfolding confirm_read verify_integrity verify_payload hash_payload canonical_json assert_can_decide
    can_approve is_expired claim_row claim_pending update_where count_where mint_grant refresh
    find_approval
confirmed = refl

abbrev decided : Database
decided = (confirm_read digest row 10 ada none table).1

-- The table with the row approved, as a table of its own.
abbrev granted_table : Database
granted_table = record {
  approvals = claimed ∷ [];
  audit = [];
  now = 20;
  next_id = 1;
  dispatched = [];
}

reached : Reach digest decided (record decided { now = decided.now + 5 })
reached = next here (waiting 5 refl)

-- A second confirmation, from the same old copy of the row.
confirm_once_example :
    (confirm_read digest row 12 ada none (record decided { now = decided.now + 5 })).0
    ≢ ok (claimed, grant)
confirm_once_example =
    confirm_once digest row row 10 12 ada ada none none table
      (record decided { now = decided.now + 5 }) (claimed, grant) (claimed, grant) table-WellFormed
      confirmed reached refl

row_found : find_approval 0 table.approvals ≡ some row
unfolding find_approval
row_found = refl

rows_evolve_example : After 0 row decided
rows_evolve_example =
    rows_evolve digest 0 row (next here (Step.confirming row 10 ada none refl)) row_found

confirm_read-ok_example :
    Passed digest row 10 ada
    × ((q : ApprovalRequest) × (find_approval 0 table.approvals ≡ some q)
        × (is_pending q.status ≡ true)
        × (10 < q.expires_at)
        × (claimed ≡ claim 10 7 none q)
        × (grant ≡ grant_of claimed ada 10))
    × (find_approval 0 decided.approvals ≡ some claimed)
confirm_read-ok_example = confirm_read-ok digest row 10 ada none table table-WellFormed confirmed

honoured : IsHonoured digest grant "email__send_email" granted_table claimed
unfolding find_approval hash_payload canonical_json
honoured = record {
  found = refl;
  row_tool = refl;
  grant_tool = refl;
  status = refl;
  in_time = omega arith;
  intact = refl;
  bound = refl;
}

verify_grant-ok_iff_example :
    ((verify_grant digest grant "email__send_email" granted_table ≡ (ok claimed, granted_table))
      ↔ IsHonoured digest grant "email__send_email" granted_table claimed)
    × ((verify_grant digest grant "email__send_email" granted_table).0 ≡ ok claimed
        → IsHonoured digest grant "email__send_email" granted_table claimed)
verify_grant-ok_iff_example =
    verify_grant-ok_iff digest grant "email__send_email" granted_table claimed

accepted : (verify_grant digest grant "email__send_email" granted_table).0 ≡ ok claimed
accepted =
    ap (λ (p : Result ApprovalRequest × Database). p.0) (verify_grant-ok_iff_example.0.1 honoured)
