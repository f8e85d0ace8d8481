-- ===== src/Emitter.antt =====
-- src/tokenweir/emitter.py: the buffered emitter.
pub mod State
pub mod Producer
pub mod Worker
pub mod System
pub mod Options
pub mod Ledger
pub mod Invariant
pub mod Totals
pub mod Progress
pub mod Drain
pub mod Shutdown
pub mod Handed
mod Tests
