-- ===== src/Core.antt =====
-- The shared core, app/core.
pub mod Payload
pub mod Redaction
pub mod Secrets
mod Tests
