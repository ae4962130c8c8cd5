-- ===== src/Ai.antt =====
-- diagnose/aiclient/: the calls of the language model, and what is sent to it.
pub mod Message
pub mod Compact
pub mod Retry
pub mod Failover
mod Tests
