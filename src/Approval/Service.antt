-- ===== src/Approval/Service.antt =====
-- `ApprovalService` of app/services/approval_service.py. `sha256` is the digest of hashlib.
use mcp_business_assistant.Prelude.{
  ℕ, ◌+◌, ◌*◌, String, Bool, ◌&&◌, ◌||◌, not, Option, none, some, List, ◌==◌, str_eq, or_else,
  if◌then◌else◌,
}
use mcp_business_assistant.Prelude.Text.{◌⊕◌, str_uuid, is_empty_text}
use mcp_business_assistant.Enums.{
  is_admin, ApprovalStatus, approved, rejected, expired, executed, failed, is_pending, is_approved,
  AuditEventType, approval_requested, approval_confirmed, approval_rejected, approval_expired,
  approval_executed, AuditOutcome, blocked, failure,
}
use mcp_business_assistant.Errors.{
  AppError, Result, app_error, not_found, authorization, approval_state, approval_expired_error,
  approval_integrity_error, approval_integrity,
}
use mcp_business_assistant.Json.{Fields, obj, str, field, end}
use mcp_business_assistant.Core.Payload.{hash_payload, verify_payload}
use mcp_business_assistant.Database.{
  Database, ApprovalRequest, User, can_approve, is_expired, find_approval, save, record_audit,
  audit_entry, AuditEntry,
}
use mcp_business_assistant.Action.{
  Action, pure, raise, or_crash, ◌>>=◌, ◌>>◌, modify, gets, raise_if,
}
use mcp_business_assistant.Security.Policy.{PolicyDecision}
use mcp_business_assistant.Approval.Repository.{
  create_row, claim_pending, reject_pending, set_executed, set_failed, set_expired,
  expire_stale_rows, list_pending_rows,
}

pub record ApprovalGrant : Type 0 where
  pub approval_id : ℕ
  pub tool_name : String
  pub server_name : String
  pub arguments : Fields
  pub arguments_hash : String
  pub approved_by : ℕ
  pub approved_at : ℕ

-- `status.value`
unfoldable pub status_value : ApprovalStatus → String
status_value ApprovalStatus.pending = "pending"
status_value approved = "approved"
status_value rejected = "rejected"
status_value expired = "expired"
status_value executed = "executed"
status_value failed = "failed"

-- A minute, in microseconds.
abbrev pub minute : ℕ
minute = 60000000

-- The fields that the audit entries of a request share.
abbrev pub entry_of : AuditEventType → ApprovalRequest → Option ℕ → AuditEntry
entry_of event request user_id = record (audit_entry event) {
  conversation_id = some request.conversation_id;
  user_id = user_id;
  approval_id = some request.id;
  tool_name = some request.tool_name;
}

abbrev pub request_or_raise : ℕ → Option ApprovalRequest → Action ApprovalRequest
request_or_raise approval_id none =
    raise (app_error not_found ("Approval request " ⊕ str_uuid approval_id ⊕ " was not found."))
request_or_raise approval_id (some request) = pure request

-- `get`
unfoldable pub get_request : ℕ → Action ApprovalRequest
get_request approval_id = do
  found ← gets (λ db. find_approval approval_id db.approvals)
  request_or_raise approval_id found

-- `session.refresh(request)`; a row that is gone is an exception of the ORM.
unfoldable pub refresh : ℕ → Action ApprovalRequest
refresh id = do found ← gets (λ db. find_approval id db.approvals); or_crash found

unfoldable pub assert_can_view : ApprovalRequest → User → Action (Unit {0})
assert_can_view request user =
    raise_if (not (is_admin user.role) && not (request.user_id == user.id))
      (app_error authorization "You do not have access to this approval request.")

abbrev pub role_error : AppError
role_error = app_error authorization "Your role does not permit approving actions."

abbrev pub owner_error : AppError
owner_error = app_error authorization "You can only decide approval requests that you raised."

unfoldable pub assert_can_decide : ApprovalRequest → User → Action (Unit {0})
assert_can_decide request approver = do
  raise_if (not (can_approve approver)) role_error
  raise_if (not (is_admin approver.role) && not (request.user_id == approver.id))
      (app_error authorization "You can only decide approval requests that you raised.")

-- `_expire`
unfoldable pub expire : ApprovalRequest → Action (Unit {0})
expire request = do
  now ← gets (λ db. db.now)
  modify (save request.id (set_expired now))
  modify (
      record_audit (record (entry_of approval_expired request (some request.user_id)) {
        outcome = blocked;
        summary = some "Approval request expired before it was confirmed";
      }))

abbrev pub set_tampered : ℕ → ApprovalRequest → ApprovalRequest
set_tampered now r = record r {
  status = failed;
  decided_at = some now;
  error = some "argument integrity check failed";
}

abbrev pub acting : Option User → ℕ → ℕ
acting none owner = owner
acting (some user) owner = user.id

-- `_fail_integrity`
unfoldable pub fail_integrity : ApprovalRequest → Option User → Action (Unit {0})
fail_integrity request approver = do
  now ← gets (λ db. db.now)
  modify (save request.id (set_tampered now))
  modify (
      record_audit
        (record (entry_of approval_executed request (some (acting approver request.user_id))) {
          outcome = failure;
          error = some "The stored approval payload did not match its integrity hash.";
        }))

abbrev pub not_confirmable : ApprovalStatus → AppError
not_confirmable status =
    app_error approval_state
      ("This approval request is already " ⊕ status_value status ⊕ " and cannot be confirmed.")

abbrev pub not_rejectable : ApprovalStatus → AppError
not_rejectable status =
    app_error approval_state
      ("This approval request is already " ⊕ status_value status ⊕ " and cannot be rejected.")

abbrev pub not_executable : ApprovalStatus → AppError
not_executable status =
    app_error approval_state
      ("The approval is " ⊕ status_value status ⊕ "; only an approved request can be executed.")

-- `{"note": note} if note else None`
abbrev pub note_payload : Option String → Option Fields
note_payload none = none
note_payload (some note) = if is_empty_text note then none else some (field "note" (str note) end)

-- `ApprovalGrant(…)` of `confirm`, from the refreshed row
abbrev pub grant_of : ApprovalRequest → User → ℕ → ApprovalGrant
grant_of request approver now = record {
  approval_id = request.id;
  tool_name = request.tool_name;
  server_name = request.server_name;
  arguments = request.arguments;
  arguments_hash = request.arguments_hash;
  approved_by = approver.id;
  approved_at = or_else request.decided_at now;
}

-- The conditional updates, as actions: whether a row was updated.
unfoldable pub claim_row : ℕ → ℕ → Option String → Action Bool
claim_row id decided_by note db =
    let (won, db') = claim_pending id decided_by note db in (Result.ok won, db')

unfoldable pub reject_row : ℕ → ℕ → Option String → Action Bool
reject_row id decided_by note db =
    let (won, db') = reject_pending id decided_by note db in (Result.ok won, db')

-- The end of `confirm`, once the transition was won.
unfoldable pub mint_grant :
    ApprovalRequest → User → Option String → Action (ApprovalRequest × ApprovalGrant)
mint_grant claimed approver note = do
  request ← refresh claimed.id
  modify (
      record_audit (record (entry_of approval_confirmed request (some approver.id)) {
        server_name = some request.server_name;
        permission_level = some request.permission_level;
        summary = some ("Approved by " ⊕ approver.email);
        payload = note_payload note;
      }))
  now ← gets (λ db. db.now)
  pure (request, grant_of request approver now)

-- The branch of `confirm` where the transition was not won.
unfoldable pub lost_race : {A : Type 0} → ApprovalRequest → Action A
lost_race lost = do
  request ← refresh lost.id
  now ← gets (λ db. db.now)
  raise_if (is_expired now request) approval_expired_error
  raise (app_error approval_state "This approval request was already decided by another request.")

-- The digest of the stored arguments is `verify_integrity`.
module _ (sha256 : String → String) where
  unfoldable pub verify_integrity : ApprovalRequest → Bool
  verify_integrity request = verify_payload sha256 (obj request.arguments) request.arguments_hash

  -- `create_request`; `ttl` is `approval_ttl_minutes`. The moment in the payload is left out.
  unfoldable pub create_request :
      (ttl conversation_id user_id : ℕ) (decision : PolicyDecision) (server_name : String)
      (arguments : Fields) (tool_call_id : Option String)
      → Action ApprovalRequest
  create_request ttl conversation_id user_id decision server_name arguments tool_call_id db =
      let (request, db') =
        create_row conversation_id user_id decision.tool_name server_name arguments
          (hash_payload sha256 (obj arguments)) decision.permission decision.summary
          (if is_empty_text decision.risk_reason then decision.reason else decision.risk_reason)
          (db.now + ttl * minute) tool_call_id db in
      (
        Result.ok request,
        record_audit
            (record (entry_of approval_requested request (some user_id)) {
              outcome = AuditOutcome.pending;
              server_name = some server_name;
              permission_level = some decision.permission;
              summary = some decision.summary;
              payload = some (field "arguments" (obj arguments) end);
            })
            db',
      )

  -- The checks of `confirm` on the row that was read at the moment `read_at`.
  unfoldable pub confirm_read :
      ApprovalRequest → ℕ → User → Option String → Action (ApprovalRequest × ApprovalGrant)
  confirm_read request read_at approver note = do
    assert_can_decide request approver
    if not (verify_integrity request)
        then fail_integrity request (some approver) >> raise approval_integrity_error
        else if not (is_pending request.status)
        then raise (not_confirmable request.status)
        else if is_expired read_at request
        then expire request >> raise approval_expired_error
        else (do
          won ← claim_row request.id approver.id note
          if won then mint_grant request approver note else lost_race request)

  -- `confirm`
  unfoldable pub confirm :
      (Database → Database) → ℕ → User → Option String → Action (ApprovalRequest × ApprovalGrant)
  confirm between approval_id approver note = do
    request ← get_request approval_id
    read_at ← gets (λ db. db.now)
    modify between
    confirm_read request read_at approver note

  -- `verify_grant`
  unfoldable pub verify_grant : ApprovalGrant → String → Action ApprovalRequest
  verify_grant grant tool_name = do
    request ← get_request grant.approval_id
    now ← gets (λ db. db.now)
    raise_if (not (str_eq request.tool_name tool_name) || not (str_eq grant.tool_name tool_name))
        (app_error approval_integrity "The approval does not correspond to this tool.")
    raise_if (not (is_approved request.status)) (not_executable request.status)
    if is_expired now request
        then expire request >> raise approval_expired_error
        else if not (verify_integrity request)
        then fail_integrity request none >> raise approval_integrity_error
        else (do
          raise_if (not (verify_payload sha256 (obj grant.arguments) request.arguments_hash))
              (app_error approval_integrity "The arguments do not match the approved payload.")
          pure request)

  -- `ApprovalGrant.matches`
  unfoldable pub grant_matches : ApprovalGrant → String → Fields → Bool
  grant_matches grant tool_name arguments =
      str_eq grant.tool_name tool_name && verify_payload sha256 (obj arguments) grant.arguments_hash

-- The checks of `reject` on the row that was read.
unfoldable pub reject_read : ApprovalRequest → User → Option String → Action ApprovalRequest
reject_read request approver note = do
  assert_can_decide request approver
  raise_if (not (is_pending request.status)) (not_rejectable request.status)
  won ← reject_row request.id approver.id note
  raise_if (not won) (app_error approval_state "This approval request was already decided.")
  decided ← refresh request.id
  modify (
      record_audit (record (entry_of approval_rejected decided (some approver.id)) {
        outcome = blocked;
        permission_level = some decided.permission_level;
        summary = some ("Rejected by " ⊕ approver.email);
        payload = note_payload note;
      }))
  pure decided

-- `reject`
unfoldable pub reject : (Database → Database) → ℕ → User → Option String → Action ApprovalRequest
reject between approval_id approver note = do
  request ← get_request approval_id
  modify between
  reject_read request approver note

-- `mark_executed`
unfoldable pub mark_executed : ApprovalRequest → Option Fields → Action (Unit {0})
mark_executed request result = do
  now ← gets (λ db. db.now)
  modify (save request.id (set_executed now result))
  modify (
      record_audit (record (entry_of approval_executed request (some request.user_id)) {
        server_name = some request.server_name;
        permission_level = some request.permission_level;
        summary = some "Approved action executed";
      }))

-- `mark_failed`
unfoldable pub mark_failed : ApprovalRequest → String → Action (Unit {0})
mark_failed request message = do
  now ← gets (λ db. db.now)
  modify (save request.id (set_failed now message))
  modify (
      record_audit (record (entry_of approval_executed request (some request.user_id)) {
        outcome = failure;
        error = some message;
      }))

-- `expire_stale`
unfoldable pub expire_stale : Action ℕ
expire_stale db = let (count, db') = expire_stale_rows db in (Result.ok count, db')

-- `list_pending`
unfoldable pub list_pending : User → Option ℕ → ℕ → Database → List ApprovalRequest
list_pending user conversation_id limit db =
    list_pending_rows (if is_admin user.role then none else some user.id) conversation_id
      (some limit) db
