-- ===== src/Snapshot.antt =====
-- internal/snapshot: the billing snapshots, from raw counters to stored and served pages.
pub mod Types
pub mod Normalize
pub mod TimeText
pub mod Disk
pub mod Store
pub mod Window
pub mod Service
pub mod Http
pub mod Identities
pub mod Push
pub mod Tests
