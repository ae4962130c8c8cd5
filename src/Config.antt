-- ===== src/Config.antt =====
-- config/: the configuration of the agent, once it is read from files.
pub mod Ai
pub mod Identity
mod Tests
