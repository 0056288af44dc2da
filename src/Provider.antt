-- ===== src/Provider.antt =====
-- The language model providers, app/providers/llm.
pub mod Heuristic
mod Tests
