-- ===== src/Model.antt =====
-- The domain model: core/crates/core/src/model.rs and the files under model/.
pub mod Json
pub mod Pointer
pub mod Identifier
pub mod Hostname
pub mod Route
pub mod Upstream
pub mod Config
pub mod State
