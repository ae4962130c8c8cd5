-- ===== src/Diagnose.antt =====
-- diagnose/: diagnoses of alerts by a language model.
pub mod State
pub mod Aggregator
pub mod Scheduler
pub mod Chat
pub mod Record
pub mod Registry
pub mod Catalog
pub mod Executor
pub mod Toolset
pub mod Forward
pub mod Rounds
pub mod Run
pub mod Streaming
pub mod Report
mod Tests
