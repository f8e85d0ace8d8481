-- ===== src/Orchestrator.antt =====
-- src/tokenweir/orchestrator.py: the phase labels and the environment that carries them.
pub mod Phase
pub mod Decimal
pub mod Label
pub mod Block
pub mod Spaces
pub mod Reading
pub mod Normal
pub mod Canonical
mod Tests
