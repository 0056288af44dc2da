-- ===== src/Approval.antt =====
-- The approval service, app/services/approval_service.py, over app/repositories/approval_repository.py.
-- A method reads its row once; what other sessions do between that read and the writes that follow
-- is the argument `between`.
pub mod Repository
pub mod Service
pub mod Rows
pub mod Evolution
pub mod Methods
pub mod Confirm
pub mod Rejection
pub mod Steps
pub mod Grant
mod Tests
