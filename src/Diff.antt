-- ===== src/Diff.antt =====
-- core/crates/core/src/diff.rs, diff/flatten.rs, diff/ignore_list.rs and canonical_json.rs: the
-- structural diff of two JSON values.
pub mod Canonical
pub mod Flatten
pub mod Compare
pub mod Edit
pub mod Apply
pub mod Summary
pub mod Resolve
