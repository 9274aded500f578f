-- ===== src/Examples.antt =====
-- Tests of the model on concrete inputs, and the theorems at concrete inputs.
pub mod Data
pub mod Texts
pub mod Audits
pub mod Diffs
pub mod Redactions
pub mod Mutations
pub mod Outcomes
pub mod Resolutions
pub mod Logins
pub mod Summaries
pub mod Snapshots
pub mod AuditLog
pub mod Renders
pub mod Applies
pub mod Edits
