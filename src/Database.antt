-- ===== src/Database.antt =====
-- The tables of app/models/database that the modelled parts read and write, and the audit log.
-- A UUID is a number, a moment is a number. Every session sees the same tables: what another
-- session does between two steps of a call stands as an argument where it matters. A clock reading
-- is a field, and `uuid4` takes the next unused number.
use mcp_business_assistant.Prelude.{
  ℕ, ◌+◌, String, Bool, true, false, ◌&&◌, Option, none, some, List, [], ◌∷◌, ◌++◌, leb, ◌==◌,
  if◌then◌else◌, not,
}
use mcp_business_assistant.Prelude.Text.{is_empty_text}
use mcp_business_assistant.Enums.{
  UserRole, is_viewer, PermissionLevel, ApprovalStatus, rejected, expired, executed, failed,
  is_pending, AuditEventType, AuditOutcome, tool_call_blocked, blocked, failure,
}
use mcp_business_assistant.Core.Redaction.{sanitise, truncate_text}
use mcp_business_assistant.Json.{Fields}
use mcp_business_assistant.Mcp.Types.{ToolCall}

-- app/models/database/user.py
pub record User : Type 0 where
  pub id : ℕ
  pub email : String
  pub role : UserRole
  pub is_active : Bool

-- `User.can_approve`
unfoldable pub can_approve : User → Bool
can_approve user = user.is_active && not (is_viewer user.role)

-- app/models/database/approval.py
pub record ApprovalRequest : Type 0 where
  pub id : ℕ
  pub conversation_id : ℕ
  pub user_id : ℕ
  pub tool_name : String
  pub server_name : String
  pub arguments : Fields
  pub arguments_hash : String
  pub permission_level : PermissionLevel
  pub summary : String
  pub risk_reason : String
  pub tool_call_id : Option String
  pub status : ApprovalStatus
  pub created_at : ℕ
  pub expires_at : ℕ
  pub decided_at : Option ℕ
  pub decided_by_id : Option ℕ
  pub decision_note : Option String
  pub executed_at : Option ℕ
  pub execution_result : Option Fields
  pub error : Option String

-- `is_expired(now)`
unfoldable pub is_expired : ℕ → ApprovalRequest → Bool
is_expired now request = leb request.expires_at now

-- `is_terminal`: membership in `TERMINAL_APPROVAL_STATUSES`
abbrev pub is_terminal : ApprovalStatus → Bool
is_terminal rejected = true
is_terminal expired = true
is_terminal executed = true
is_terminal failed = true
is_terminal _ = false

-- `is_actionable`
unfoldable pub is_actionable : ℕ → ApprovalRequest → Bool
unfolding is_expired
is_actionable now request = is_pending request.status && not (is_expired now request)

-- app/models/database/audit.py, without the request id and the duration.
pub record AuditEntry : Type 0 where
  pub event_type : AuditEventType
  pub outcome : AuditOutcome
  pub conversation_id : Option ℕ
  pub user_id : Option ℕ
  pub approval_id : Option ℕ
  pub tool_name : Option String
  pub server_name : Option String
  pub permission_level : Option PermissionLevel
  pub summary : Option String
  pub payload : Option Fields
  pub error : Option String

-- Beside the tables: the clock, the next unused UUID, and the calls that the tool execution service
-- has handed to the MCP manager, the last one at the end.
pub record Database : Type 0 where
  pub approvals : List ApprovalRequest
  pub audit : List AuditEntry
  pub now : ℕ
  pub next_id : ℕ
  pub dispatched : List ToolCall

-- `session.get(ApprovalRequest, id)`
unfoldable pub find_approval : ℕ → List ApprovalRequest → Option ApprovalRequest
find_approval k [] = none
find_approval k (r ∷ rs) = if r.id == k then some r else find_approval k rs

-- `UPDATE … WHERE test SET change`
unfoldable pub update_where :
    (ApprovalRequest → Bool)
    → (ApprovalRequest → ApprovalRequest)
    → List ApprovalRequest
    → List ApprovalRequest
update_where test change [] = []
update_where test change (r ∷ rs) = (if test r then change r else r) ∷ update_where test change rs

-- The row count of such an update.
unfoldable pub count_where : (ApprovalRequest → Bool) → List ApprovalRequest → ℕ
count_where test [] = 0
count_where test (r ∷ rs) = (if test r then 1 else 0) + count_where test rs

-- The flush of a change to one loaded row, which updates it by its primary key.
unfoldable pub save : ℕ → (ApprovalRequest → ApprovalRequest) → Database → Database
unfolding update_where
save k change db = record db { approvals = update_where (λ r. r.id == k) change db.approvals }

-- `truncate(text, 2000) if text else None`
abbrev bounded : Option String → Option String
bounded none = none
bounded (some s) = if is_empty_text s then none else some (truncate_text 2000 s)

-- `AuditService.record`: the payload is sanitised and the texts are bounded.
unfoldable pub record_audit : AuditEntry → Database → Database
record_audit entry db = record db {
  audit =
      db.audit
      ++ record entry {
        summary = bounded entry.summary;
        payload = sanitise entry.payload;
        error = bounded entry.error;
      }
        ∷ [];
}

-- An entry of which nothing but the event is known: the defaults of `AuditService.record`.
abbrev pub audit_entry : AuditEventType → AuditEntry
audit_entry event = record {
  event_type = event;
  outcome = AuditOutcome.success;
  conversation_id = none;
  user_id = none;
  approval_id = none;
  tool_name = none;
  server_name = none;
  permission_level = none;
  summary = none;
  payload = none;
  error = none;
}

-- `AuditService.tool_blocked`
unfoldable pub tool_blocked :
    (tool_name reason : String) (permission_level : PermissionLevel)
    (conversation_id user_id : Option ℕ) (payload : Option Fields)
    → Database
    → Database
tool_blocked tool_name reason permission_level conversation_id user_id payload =
    record_audit (record (audit_entry tool_call_blocked) {
      outcome = blocked;
      tool_name = some tool_name;
      permission_level = some permission_level;
      conversation_id = conversation_id;
      user_id = user_id;
      summary = some reason;
      payload = payload;
    })

-- `AuditService.agent_error`, the entry
unfoldable pub agent_error_entry : String → ℕ → ℕ → AuditEntry
agent_error_entry error conversation_id user_id = record (audit_entry AuditEventType.agent_error) {
  outcome = failure;
  error = some error;
  conversation_id = some conversation_id;
  user_id = some user_id;
}
