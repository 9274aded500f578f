-- ===== src/Applier.antt =====
-- The applier: core/crates/core/src/reconciler/applier.rs and caddy/error.rs, and
-- core/crates/adapters/src/applier_caddy.rs.
pub mod Types
pub mod Monad
pub mod Writer
pub mod Reports
pub mod Apply
