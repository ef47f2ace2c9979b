-- ===== src/Smtpd.antt =====
-- internal/smtpd/server.go, in parts.
pub mod Data
pub mod Command
pub mod Routing
pub mod Session
