-- ===== src/Conversation.antt =====
-- The conversation history, app/services/conversation_service.py, and the messages that a language
-- model reads, app/providers/llm/base.py.
pub mod Messages
pub mod History
pub mod Linked
pub mod Ownership
pub mod Transcript
pub mod Numbering
mod Tests
