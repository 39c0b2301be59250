-- ===== src/Tests.antt =====
-- Runs of the modelled code on small inputs, and the theorems at inputs that meet their hypotheses.
pub mod Editing
pub mod Handshakes
pub mod Frames
pub mod Bitmaps
pub mod Contexts
pub mod Timers
pub mod Buffers
pub mod Services
pub mod Stores
pub mod Peers
pub mod Servers
