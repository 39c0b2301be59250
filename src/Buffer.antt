-- ===== src/Buffer.antt =====
-- The buffer pools of src/core/buffer.h and buffer.cc.
pub mod Defs
pub mod Pool
pub mod Send
pub mod Blocks
pub mod Offers
pub mod Receive
pub mod Fresh
