-- ===== src/Errors.antt =====
-- app/core/exceptions.py: the errors that the modelled parts raise, and the outcome of a call.
use mcp_business_assistant.Prelude.{ℕ, String, ◌≡◌, refl, ◌⊎◌, inl, inr}
use mcp_business_assistant.Prelude.Text.{◌⊕◌, repr_str}

-- The subclasses of `AppError`.
pub data ErrorKind : Type 0 where
  validation_error not_found authentication authorization conflict : ErrorKind
  mcp_server_unavailable tool_not_found tool_execution tool_argument tool_timeout : ErrorKind
  permission_denied approval_required approval_expired approval_state : ErrorKind
  approval_integrity llm_error llm_timeout agent_error : ErrorKind

-- `code`
unfoldable pub code : ErrorKind → String
code validation_error = "validation_error"
code not_found = "not_found"
code authentication = "authentication_failed"
code authorization = "not_authorized"
code conflict = "conflict"
code mcp_server_unavailable = "mcp_server_unavailable"
code tool_not_found = "tool_not_found"
code tool_execution = "tool_execution_failed"
code tool_argument = "invalid_tool_arguments"
code tool_timeout = "tool_timeout"
code permission_denied = "tool_permission_denied"
code approval_required = "approval_required"
code approval_expired = "approval_expired"
code approval_state = "approval_invalid_state"
code approval_integrity = "approval_integrity_failure"
code llm_error = "llm_error"
code llm_timeout = "llm_timeout"
code agent_error = "agent_error"

-- `status_code`
unfoldable pub status_code : ErrorKind → ℕ
status_code validation_error = 422
status_code not_found = 404
status_code authentication = 401
status_code authorization = 403
status_code conflict = 409
status_code mcp_server_unavailable = 503
status_code tool_not_found = 404
status_code tool_execution = 502
status_code tool_argument = 422
status_code tool_timeout = 504
status_code permission_denied = 403
status_code approval_required = 403
status_code approval_expired = 409
status_code approval_state = 409
status_code approval_integrity = 409
status_code llm_error = 502
status_code llm_timeout = 504
status_code agent_error = 500

-- `details` are left out.
pub record AppError : Type 0 where
  pub kind : ErrorKind
  pub message : String

abbrev pub app_error : ErrorKind → String → AppError
app_error k m = record { kind = k; message = m }

-- How a call ends: with a value, with an `AppError`, or with another exception (a `TypeError`).
pub data Result {ℓ} (A : Type ℓ) : Type ℓ where
  ok : A → Result A
  err : AppError → Result A
  crash : Result A

pub Result-cases {ℓ} :
    {A : Type ℓ} (r : Result A)
    → ((a : A) × (r ≡ ok a)) ⊎ ((e : AppError) × (r ≡ err e)) ⊎ (r ≡ crash)
Result-cases (ok a) = inl (a, refl)
Result-cases (err e) = inr (inl (e, refl))
Result-cases crash = inr (inr refl)

-- The messages that the classes give themselves.
abbrev pub approval_expired_error : AppError
approval_expired_error =
    app_error approval_expired "The approval request has expired and can no longer be confirmed."

abbrev pub approval_integrity_error : AppError
approval_integrity_error =
    app_error approval_integrity "The approved action payload failed its integrity check."

unfoldable pub server_unavailable_error : String → AppError
unfolding repr_str
server_unavailable_error server =
    app_error mcp_server_unavailable ("MCP server " ⊕ repr_str server ⊕ " is unavailable.")

unfoldable pub tool_not_found_error : String → AppError
unfolding repr_str
tool_not_found_error tool =
    app_error tool_not_found ("Tool " ⊕ repr_str tool ⊕ " is not available.")

unfoldable pub tool_execution_error : String → AppError
unfolding repr_str
tool_execution_error tool =
    app_error tool_execution ("Tool " ⊕ repr_str tool ⊕ " failed to execute.")

-- `seconds` is the text of the time limit.
unfoldable pub tool_timeout_error : String → String → AppError
unfolding repr_str
tool_timeout_error tool seconds =
    app_error tool_timeout ("Tool " ⊕ repr_str tool ⊕ " timed out after " ⊕ seconds ⊕ "s.")
