-- ===== src/Mcp.antt =====
-- The MCP client layer, app/mcp.
pub mod Types
pub mod Catalog
pub mod Config
pub mod Validation
pub mod Manager
mod Tests
