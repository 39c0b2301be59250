-- ===== src/Server.antt =====
-- The server, its workers and their event loops, src/core.
pub mod Defs
pub mod Handlers
pub mod Reach
pub mod Accept
pub mod Tables
pub mod Upgrade
pub mod Routing
pub mod Tidy
pub mod Kept
pub mod Sessions
pub mod Switch
pub mod Live
pub mod Messages
