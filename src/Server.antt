-- ===== src/Server.antt =====
-- server/: the connection to the server, its alert buffer and its remote sessions.
pub mod Ring
pub mod Reconnect
pub mod Session
pub mod Runs
pub mod Flush
pub mod Handler
mod Tests
