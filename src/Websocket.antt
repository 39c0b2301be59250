-- ===== src/Websocket.antt =====
-- The WebSocket frames of src/protocol/websocket.
pub mod Bytes
pub mod Parser
pub mod Frame
pub mod Receive
pub mod Package
pub mod Send
pub mod Handle
pub mod Control
pub mod Loop
pub mod Progress
pub mod Stream
