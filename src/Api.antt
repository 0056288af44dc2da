-- ===== src/Api.antt =====
-- The HTTP API, app/api: the endpoints for approvals, chat and tools, the user behind a request, and
-- the answers to errors.
pub mod Answers
pub mod Approvals
pub mod Accounts
pub mod Authentication
pub mod Chat
pub mod Tools
pub mod Announced
pub mod Silent
pub mod Confirmation
pub mod Rejection
mod Tests
