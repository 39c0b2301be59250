-- ===== src/Ot.antt =====
-- Operational transformation: src/services/document/ot.h and src/services/document/ot.cc.
pub mod Operation
pub mod Passes
pub mod Units
pub mod Emit
pub mod Iterate
pub mod Rounds
pub mod Fronts
pub mod Both
pub mod Rebase
pub mod Sequence
pub mod Correct
