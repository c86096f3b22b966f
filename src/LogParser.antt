-- ===== src/LogParser.antt =====
-- internal/logparser: the access log, followed and counted.
pub mod Ring
pub mod Counts
pub mod Filter
pub mod Line
pub mod Follow
pub mod Metrics
pub mod Batch
pub mod Loop
pub mod Inode
mod Tests
