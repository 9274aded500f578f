-- ===== src/Mutation.antt =====
-- The mutation algebra: core/crates/core/src/mutation/.
pub mod Types
pub mod Url
pub mod Cidr
pub mod Validate
pub mod Capability
pub mod Patch
pub mod Steps
pub mod Apply
pub mod Invariant
