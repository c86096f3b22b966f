-- ===== src/LogParser/Inode.antt =====
-- internal/logparser/inode_unix.go and inode_windows.go: what identifies the log file.
pub mod Unix
pub mod Windows
pub mod Unknown
mod Tests
