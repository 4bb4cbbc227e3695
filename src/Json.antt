-- ===== src/Json.antt =====
-- The variable document: `serde_json::Value`, merge_patch.rs, and the paths of condition.rs
-- (`resolve`) and step.rs (`assign`). Proofs are in the modules below.
pub mod Values
pub mod Merge
pub mod Paths
mod MergeTests
pub use Values.{Value, Items, Members, null, bool, number, string, array, object}
pub use Values.{is_null}
unfoldable pub use Values.{is_empty}
