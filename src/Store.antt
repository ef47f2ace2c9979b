-- ===== src/Store.antt =====
-- internal/store/store.go and internal/store/persist.go, in parts.
pub mod Types
pub mod Summaries
pub mod Disk
pub mod State
pub mod Ops
pub mod Queries
pub mod Consistency
pub mod Listing
pub mod Lookups
pub mod Newest
pub mod Steps
pub mod Load
