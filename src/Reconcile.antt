-- ===== src/Reconcile.antt =====
-- src/tokenweir/reconcile.py: an existing database, compared with the schema of the migrations and brought to it.
pub mod Text
pub mod Definitions
pub mod Constants
pub mod Schema
pub mod Report
pub mod Wording
pub mod Connection
pub mod Columns
pub mod Tables
pub mod RateCard
pub mod Catalog
pub mod Run
pub mod Apply
pub mod Laws
pub mod ReadOnly
pub mod Matching
pub mod Compares
pub mod ComparedColumns
pub mod ComparedTables
pub mod ComparedView
pub mod ReportedCard
pub mod ComparedRelations
pub mod Ordering
pub mod Planned
pub mod Planning
pub mod Settled
pub mod Executed
pub mod Applied
pub mod Quoting
mod Tests
