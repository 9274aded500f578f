-- ===== src/Audit.antt =====
-- core/crates/core/src/audit/: the closed vocabulary of audit events.
pub mod Event
pub mod Vocab
pub mod Redactor
