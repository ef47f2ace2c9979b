-- ===== src/Pop3d.antt =====
-- internal/pop3d/server.go, in parts.
pub mod Wire
pub mod Session
pub mod Server
