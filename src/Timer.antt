-- ===== src/Timer.antt =====
-- The hierarchical time wheel of src/core/timer.h and timer.cc.
pub mod Clock
pub mod Defs
pub mod Good
pub mod Pending
pub mod Cascade
pub mod Turns
pub mod Stage
pub mod Tick
pub mod Fires
pub mod OnTime
