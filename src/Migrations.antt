-- ===== src/Migrations.antt =====
-- src/tokenweir/migrations/__init__.py: the shipped migrations and their runner.
pub mod Comments
pub mod Shipped
pub mod Database
pub mod Runner
pub mod Apply
pub mod Lexing
pub mod Laws
pub mod Reading
pub mod Whole
pub mod Answer
pub mod Stopped
mod Tests
