-- ===== src/Execution.antt =====
-- The tool execution service, app/services/tool_execution_service.py: the one way from the agent to
-- the MCP manager.
pub mod Gateway
pub mod Execute
pub mod Paths
pub mod Authorised
pub mod HighRisk
pub mod Spent
pub mod Requests
mod Tests
