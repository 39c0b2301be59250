-- ===== src/Core.antt =====
-- The event loop's own parts, src/core.
pub mod Context
