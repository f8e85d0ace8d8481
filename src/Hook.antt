-- ===== src/Hook.antt =====
-- src/tokenweir/claude_code.py: the hook for Claude Code.
pub mod Counts
pub mod Text
pub mod Transcript
pub mod Pipeline
pub mod Arithmetic
pub mod Scan
pub mod Identity
pub mod Turns
pub mod Fields
pub mod Selection
pub mod Stripping
pub mod Attribution
pub mod Contracted
pub mod Emitted
mod Tests
