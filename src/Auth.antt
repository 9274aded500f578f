-- ===== src/Auth.antt =====
-- core/crates/adapters/src/auth.
pub mod RateLimit
