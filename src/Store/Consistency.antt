-- ===== src/Store/Consistency.antt =====
-- internal/store/store.go: the mailboxes and the index of a store hold the same messages.
pub mod Parts
pub mod Index
pub mod Updates
pub mod Frame
pub mod Preserved
pub mod Numbered
pub mod Created
pub mod Loaded
