-- ===== src/Storage.antt =====
-- core/crates/core/src/storage and its implementation over SQLite in core/crates/adapters/src.
pub mod Types
pub mod Tables
pub mod Sqlite
