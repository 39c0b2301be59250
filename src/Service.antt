-- ===== src/Service.antt =====
-- The handlers of src/services/document/document_service.h and document_service.cc.
pub mod Defs
pub mod Heard
pub mod Broadcast
pub mod Store
pub mod Nodes
pub mod Sound
pub mod Leave
pub mod LookUp
pub mod Opened
pub mod Reach
pub mod Stuck
pub mod Blocked
pub mod Race
