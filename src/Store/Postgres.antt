-- ===== src/Store/Postgres.antt =====
-- The Postgres backend: internal/store/pg_tx.go, pg_audit.go, pg_flags.go and pg_snapshots.go, and
-- the statements of internal/db on the tables of db/migrations.
pub mod Queries
pub mod Tx
pub mod Refined
pub mod Reached
pub mod Audited
pub mod Lookups
pub mod Ordered
pub mod Window
pub mod Latest
