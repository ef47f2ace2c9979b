-- ===== src/Web.antt =====
-- internal/web: composing a message, and the HTTP API.
pub mod Compose
pub mod Types
pub mod Access
pub mod Reading
pub mod Changing
pub mod Events
pub mod Server
pub mod Frame
pub mod Steps
pub mod Guards
pub mod Stored
