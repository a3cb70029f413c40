-- ===== src/Conn.antt =====
-- The connection of a session (bus/internal/conn/conn.go): the socket's reader and writer and the
-- bounded outbox between a session's loop and the writer.
pub mod Socket
pub mod History
pub mod Outbox
pub mod Finish
pub mod Writes
mod Tests
