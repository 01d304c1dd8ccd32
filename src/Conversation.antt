-- ===== src/Conversation.antt =====
-- The turns of a conversation (python/tom/voice/turn_manager.py and python/tom/schemas/turn.py).
pub mod Manager
pub mod ToolCalls
pub mod History
mod Examples
