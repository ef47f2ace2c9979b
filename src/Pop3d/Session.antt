-- ===== src/Pop3d/Session.antt =====
-- internal/pop3d/server.go: the state of a connection, the handlers and the command loop.
pub mod State
pub mod Login
pub mod Transaction
pub mod Loop
pub mod Preserve
pub mod View
pub mod Update
pub mod Keeps
pub mod Sound
pub mod Ends
pub mod Numbers
