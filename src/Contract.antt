-- ===== src/Contract.antt =====
-- src/tokenweir/contract.py: the usage record, its validation, its wire form and its schema.
pub mod Values
pub mod Record
pub mod Wire
pub mod Schema
pub mod Lookup
pub mod Shape
pub mod Errors
pub mod RoundTrip
pub mod Successes
pub mod Agreement
pub mod Publication
mod Tests
