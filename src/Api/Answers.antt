-- ===== src/Api/Answers.antt =====
-- app/api/errors.py, and the bodies of the approval endpoints from app/models/schemas/api.py.
use mcp_business_assistant.Prelude.{ℕ, String, Bool, Option, List, ◌⊎◌, inl, inr}
use mcp_business_assistant.Prelude.Text.{str_uuid}
use mcp_business_assistant.Enums.{PermissionLevel, ApprovalStatus}
use mcp_business_assistant.Errors.{AppError, Result, ok, err, crash, code, status_code}
use mcp_business_assistant.Json.{Fields}
use mcp_business_assistant.Database.{ApprovalRequest}

-- The answer to a request that failed, without the details and the request id.
pub record ErrorAnswer : Type 0 where
  pub status_code : ℕ
  pub code : String
  pub message : String

-- `app_error_handler`
unfoldable pub app_error_handler : AppError → ErrorAnswer
app_error_handler e = record {
  status_code = status_code e.kind;
  code = code e.kind;
  message = e.message;
}

-- `unhandled_error_handler`
abbrev pub unhandled_error_handler : ErrorAnswer
unhandled_error_handler = record {
  status_code = 500;
  code = "internal_error";
  message = "An unexpected error occurred. Quote the request_id when reporting this.";
}

-- `register_exception_handlers`: what the client gets of how an endpoint ends.
unfoldable pub answer : {A : Type 0} → Result A → ErrorAnswer ⊎ A
answer (ok a) = inr a
answer (err e) = inl (app_error_handler e)
answer crash = inl unhandled_error_handler

pub record ApprovalOut : Type 0 where
  pub id : String
  pub conversation_id : String
  pub tool_name : String
  pub server_name : String
  pub permission_level : PermissionLevel
  pub status : ApprovalStatus
  pub summary : String
  pub risk_reason : String
  pub arguments : Fields
  pub created_at : ℕ
  pub expires_at : ℕ
  pub decided_at : Option ℕ
  pub executed_at : Option ℕ
  pub error : Option String

-- `_to_out`
unfoldable pub to_out : ApprovalRequest → ApprovalOut
to_out request = record {
  id = str_uuid request.id;
  conversation_id = str_uuid request.conversation_id;
  tool_name = request.tool_name;
  server_name = request.server_name;
  permission_level = request.permission_level;
  status = request.status;
  summary = request.summary;
  risk_reason = request.risk_reason;
  arguments = request.arguments;
  created_at = request.created_at;
  expires_at = request.expires_at;
  decided_at = request.decided_at;
  executed_at = request.executed_at;
  error = request.error;
}

pub record ApprovalListResponse : Type 0 where
  pub approvals : List ApprovalOut
  pub count : ℕ

pub record ApprovalDecisionResponse : Type 0 where
  pub approval : ApprovalOut
  pub executed : Bool
  pub conversation_id : String
  pub response : Option String
  pub error : Option String
