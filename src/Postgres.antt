-- ===== src/Postgres.antt =====
-- src/tokenweir/postgres.py: the store behind the sinks, one transaction for each batch.
pub mod Rows
pub mod Write
pub mod Atomic
mod Tests
