-- ===== src/Terminal.antt =====
-- The terminal of an exec: its web sockets (ws-conn) and the handler that stands between them and the
-- stream of the container (exec/pty_handler.go).
pub mod Sockets
pub mod Pty
mod Tests
