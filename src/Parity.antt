-- ===== src/Parity.antt =====
-- src/tokenweir/parity.py: the responses of a transcript, gathered across their lines.
pub mod Turns
pub mod Keys
pub mod Agreement
pub mod Compare
pub mod Coverage
mod Tests
