-- ===== src/Reconciler.antt =====
-- core/crates/core/src/reconciler
pub mod CapabilityCheck
pub mod Render
