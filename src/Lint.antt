-- ===== src/Lint.antt =====
-- crates/rbpmn-model/src/lint: the structural rules of a flow scope and the traversal they share.
pub mod Reach
pub mod Structure
