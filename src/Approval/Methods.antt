-- ===== src/Approval/Methods.antt =====
-- Every method of the service keeps the payloads and the gate out of `pending`, however it ends.
use mcp_business_assistant.Prelude.{ℕ, String, Option, none, some, arith, refl}
use mcp_business_assistant.Json.{Fields}
use mcp_business_assistant.Database.{Database, ApprovalRequest, User, save}
use mcp_business_assistant.Enums.{PermissionLevel}
use mcp_business_assistant.Security.Policy.{PolicyDecision}
use mcp_business_assistant.Approval.Repository.{
  claim, claim_pending, refuse, reject_pending, set_executed, set_failed, set_expired,
  expire_stale_rows, claimable, rejectable, stale, create_row, new_request,
}
use mcp_business_assistant.Approval.Service.{
  ApprovalGrant, get_request, refresh, assert_can_decide, expire, fail_integrity, set_tampered,
  mint_grant, lost_race, claim_row, reject_row, request_or_raise, create_request, confirm_read,
  verify_grant, reject_read, mark_executed, mark_failed, expire_stale,
}
use mcp_business_assistant.Approval.Rows.{
  find_approval-append_old, find_approval-append_none, append-HasKeys,
}
use mcp_business_assistant.Approval.Evolution.{
  Evolves-refl, Gentle, AlwaysGentle, always-Gentle, Leads, Leads-trans, update-Leads, save-Leads,
  record_audit-Leads, Steady, Keeps, keeps_rules,
}

save-Steady :
    (k : ℕ) (change : ApprovalRequest → ApprovalRequest)
    → AlwaysGentle change
    → Steady (save k change)
save-Steady k change gentle = record { at = λ db. save-Leads k change db gentle }

set_expired-Gentle : (now : ℕ) → AlwaysGentle (set_expired now)
set_expired-Gentle now r = ground arith

set_tampered-Gentle : (now : ℕ) → AlwaysGentle (set_tampered now)
set_tampered-Gentle now r = ground arith

set_executed-Gentle : (now : ℕ) (result : Option Fields) → AlwaysGentle (set_executed now result)
set_executed-Gentle now result r = ground arith

set_failed-Gentle : (now : ℕ) (error : String) → AlwaysGentle (set_failed now error)
set_failed-Gentle now error r = ground arith

claim-Gentle :
    (k now decided_by : ℕ) (comment : Option String)
    → Gentle (claimable k now) (claim now decided_by comment)
claim-Gentle k now decided_by comment r = (refl, λ test. ground arith)

refuse-Gentle :
    (k now decided_by : ℕ) (comment : Option String)
    → Gentle (rejectable k) (refuse now decided_by comment)
refuse-Gentle k now decided_by comment r = (refl, λ test. ground arith)

ruleset gentle_rules = (
  keeps_rules, save-Steady, set_expired-Gentle, set_tampered-Gentle, set_executed-Gentle,
  set_failed-Gentle,
)

request_or_raise-Keeps : (k : ℕ) (o : Option ApprovalRequest) → Keeps (request_or_raise k o)
request_or_raise-Keeps k none = search keeps_rules
request_or_raise-Keeps k (some r) = search keeps_rules

pub get_request-Keeps : (k : ℕ) → Keeps (get_request k)
unfolding get_request
get_request-Keeps k = search (keeps_rules, request_or_raise-Keeps)

pub refresh-Keeps : (k : ℕ) → Keeps (refresh k)
unfolding refresh
refresh-Keeps k = search keeps_rules

pub expire-Keeps : (r : ApprovalRequest) → Keeps (expire r)
unfolding expire
expire-Keeps r = search gentle_rules

pub fail_integrity-Keeps : (r : ApprovalRequest) (u : Option User) → Keeps (fail_integrity r u)
unfolding fail_integrity
fail_integrity-Keeps r u = search gentle_rules

assert_can_decide-Keeps : (r : ApprovalRequest) (u : User) → Keeps (assert_can_decide r u)
unfolding assert_can_decide
assert_can_decide-Keeps r u = search keeps_rules

claim_row-Keeps : (k user : ℕ) (comment : Option String) → Keeps (claim_row k user comment)
unfolding claim_row claim_pending
claim_row-Keeps k user comment = record {
  at = λ db.
      update-Leads (claimable k db.now) (claim db.now user comment) db
        (claim-Gentle k db.now user comment);
}

reject_row-Keeps : (k user : ℕ) (comment : Option String) → Keeps (reject_row k user comment)
unfolding reject_row reject_pending
reject_row-Keeps k user comment = record {
  at = λ db.
      update-Leads (rejectable k) (refuse db.now user comment) db
        (refuse-Gentle k db.now user comment);
}

mint_grant-Keeps :
    (r : ApprovalRequest) (u : User) (comment : Option String) → Keeps (mint_grant r u comment)
unfolding mint_grant
mint_grant-Keeps r u comment = search (keeps_rules, refresh-Keeps)

lost_race-Keeps : {A : Type 0} (r : ApprovalRequest) → Keeps (lost_race {A = A} r)
unfolding lost_race
lost_race-Keeps r = search (keeps_rules, refresh-Keeps)

pub mark_executed-Keeps :
    (r : ApprovalRequest) (result : Option Fields) → Keeps (mark_executed r result)
unfolding mark_executed
mark_executed-Keeps r result = search gentle_rules

pub mark_failed-Keeps : (r : ApprovalRequest) (message : String) → Keeps (mark_failed r message)
unfolding mark_failed
mark_failed-Keeps r message = search gentle_rules

pub expire_stale-Keeps : Keeps expire_stale
unfolding expire_stale expire_stale_rows
expire_stale-Keeps = record {
  at = λ db.
      update-Leads (stale db.now) (set_expired db.now) db
        (always-Gentle (stale db.now) (set_expired db.now) (set_expired-Gentle db.now));
}

pub reject_read-Keeps :
    (r : ApprovalRequest) (u : User) (comment : Option String) → Keeps (reject_read r u comment)
unfolding reject_read
reject_read-Keeps r u comment =
    search (keeps_rules, assert_can_decide-Keeps, reject_row-Keeps, refresh-Keeps) depth 12

create_row-Leads :
    (conversation_id user_id : ℕ) (tool_name server_name : String) (arguments : Fields)
    (arguments_hash : String) (level : PermissionLevel) (summary risk_reason : String)
    (expires_at : ℕ) (tool_call_id : Option String) (db : Database)
    → Leads db
        (create_row conversation_id user_id tool_name server_name arguments arguments_hash level
          summary risk_reason expires_at tool_call_id db).1
unfolding create_row
create_row-Leads c u t s a h l m w e i db =
    let new : ApprovalRequest = new_request db.next_id c u t s a h l m w e i db.now in
    record {
      well = λ ok. record {
        keyed = append-HasKeys db.approvals new (ok.fresh db.next_id (omega arith)) ok.keyed;
        fresh = λ k above.
            find_approval-append_none k db.approvals new (ok.fresh k (omega arith)) (omega arith);
      };
      rows = λ k r there. (r, find_approval-append_old k db.approvals new there, Evolves-refl r);
      clock = omega arith;
      quiet = refl;
    }

module _ (sha256 : String → String) where
  pub confirm_read-Keeps :
      (r : ApprovalRequest) (read_at : ℕ) (u : User) (comment : Option String)
      → Keeps (confirm_read sha256 r read_at u comment)
  unfolding confirm_read
  confirm_read-Keeps r read_at u comment =
      search
        (
          keeps_rules, assert_can_decide-Keeps, claim_row-Keeps, mint_grant-Keeps, lost_race-Keeps,
          expire-Keeps, fail_integrity-Keeps,
        )
        depth 12

  pub verify_grant-Keeps : (g : ApprovalGrant) (tool : String) → Keeps (verify_grant sha256 g tool)
  unfolding verify_grant
  verify_grant-Keeps g tool =
      search (keeps_rules, get_request-Keeps, expire-Keeps, fail_integrity-Keeps) depth 14

  -- A new row is put at an unused id, behind the rows that are there.
  pub create_request-Keeps :
      (ttl conversation_id user_id : ℕ) (decision : PolicyDecision) (server_name : String)
      (arguments : Fields) (tool_call_id : Option String)
      → Keeps (
          create_request sha256 ttl conversation_id user_id decision server_name arguments
            tool_call_id)
  unfolding create_request
  create_request-Keeps ttl conversation_id user_id decision server_name arguments tool_call_id =
      record {
        at = λ db. Leads-trans (create_row-Leads _ _ _ _ _ _ _ _ _ _ _ db) (record_audit-Leads _ _);
      }
