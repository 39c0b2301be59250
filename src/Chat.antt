-- ===== src/Chat.antt =====
-- The chat service, src/services/chat.
pub mod Defs
pub mod Reaches
