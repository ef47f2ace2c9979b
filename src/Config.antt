-- ===== src/Config.antt =====
-- internal/config/config.go and internal/config/routes.go, in parts.
pub mod Types
pub mod Routes
pub mod Settings
pub mod Sizes
pub mod Load
