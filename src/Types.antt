-- ===== src/Types.antt =====
-- types/: the event that plugins raise and every other part passes on.
pub mod Event
