-- ===== src/Smtpd/Session.antt =====
-- internal/smtpd/server.go: the state of a connection, the handlers and the command loop.
pub mod State
pub mod Auth
pub mod Mail
pub mod Deliver
pub mod Loop
pub mod Preserve
pub mod Orderly
pub mod Keeps
pub mod Delivered
pub mod Submitted
pub mod Ends
