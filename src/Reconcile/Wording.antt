-- ===== src/Reconcile/Wording.antt =====
-- reconcile.py: the discrepancies and observations, as they are worded.
pub mod Columns
pub mod Tables
pub mod Indexes
