-- ===== src/Mailparse.antt =====
-- internal/mailparse/mailparse.go, in parts.
pub mod Types
pub mod Filename
pub mod Headers
pub mod Charset
pub mod Decoding
pub mod Walk
