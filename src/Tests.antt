-- ===== src/Tests.antt =====
-- The theorems of the library at concrete inputs.
mod Fixtures
mod Stores
mod Smtp
mod Pop3
mod Routing
mod Locks
mod Web
mod Mail
mod Startup
mod Servers
mod Submission
