-- ===== src/Amqp.antt =====
-- src/tokenweir/amqp.py: the sink that publishes to a broker.
pub mod State
pub mod Connect
pub mod Sink
pub mod Counts
pub mod Refusals
pub mod Dials
pub mod Pace
pub mod Backoff
mod Tests
