-- ===== src/Enums.antt =====
-- The enumerations of app/models/database/enums.py that the modelled parts use, with the `==` of
-- their members.
use mcp_business_assistant.Prelude.{ℕ, Bool, true, false}

pub data UserRole : Type 0 where
  viewer operator admin : UserRole

abbrev pub is_viewer : UserRole → Bool
is_viewer viewer = true
is_viewer _ = false

abbrev pub is_admin : UserRole → Bool
is_admin admin = true
is_admin _ = false

pub data PermissionLevel : Type 0 where
  read write high_risk : PermissionLevel

abbrev pub is_read : PermissionLevel → Bool
is_read read = true
is_read _ = false

abbrev pub is_write : PermissionLevel → Bool
is_write write = true
is_write _ = false

abbrev pub is_high_risk : PermissionLevel → Bool
is_high_risk high_risk = true
is_high_risk _ = false

-- `PERMISSION_ORDER`
abbrev pub permission_order : PermissionLevel → ℕ
permission_order read = 0
permission_order write = 1
permission_order high_risk = 2

pub data ApprovalStatus : Type 0 where
  pending approved rejected expired executed failed : ApprovalStatus

abbrev pub is_pending : ApprovalStatus → Bool
is_pending pending = true
is_pending _ = false

abbrev pub is_approved : ApprovalStatus → Bool
is_approved approved = true
is_approved _ = false

pub data AuditEventType : Type 0 where
  agent_request_received agent_tools_discovered agent_decision agent_response : AuditEventType
  agent_error policy_decision : AuditEventType
  tool_call_started tool_call_succeeded tool_call_failed tool_call_blocked : AuditEventType
  approval_requested approval_confirmed approval_rejected approval_expired : AuditEventType
  approval_executed : AuditEventType
  mcp_server_connected mcp_server_failed : AuditEventType

pub data AuditOutcome : Type 0 where
  success failure blocked pending : AuditOutcome

pub data ConversationStatus : Type 0 where
  active awaiting_approval archived : ConversationStatus

pub data MessageRole : Type 0 where
  system user assistant tool : MessageRole
