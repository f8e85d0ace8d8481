-- ===== src/Sink.antt =====
-- src/tokenweir/sink.py: the guarded emit calls and the sink over a store.
pub mod Guard
pub mod Guarded
pub mod Direct
pub mod Delivery
mod Tests
