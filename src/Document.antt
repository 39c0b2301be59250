-- ===== src/Document.antt =====
-- src/services/document/document.h and src/services/document/document.cc: one document with its
-- revisions and its users. The locks make each method one step. `none` stands for a read outside
-- `history_`, or for a loop of ot.cc that has used up its fuel.
mod Defs
pub mod Revisions
pub mod Convergence
pub mod Users
unfoldable pub use Defs.*
