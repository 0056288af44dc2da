-- ===== src/Security.antt =====
-- The security layer, app/security.
pub mod Permissions
pub mod Policy
mod Tests
