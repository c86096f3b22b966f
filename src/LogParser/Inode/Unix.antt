-- ===== src/LogParser/Inode/Unix.antt =====
-- internal/logparser/inode_unix.go
use xray_exporter.Common.{ℕ}

-- What `fileInfo.Sys` gives: a `*syscall.Stat_t` with its Ino, or something else.
pub data Sys : Type 0 where
  stat_t : (ino : ℕ) → Sys
  other : Sys

unfoldable pub get_inode : Sys → ℕ
get_inode (stat_t ino) = ino
get_inode other = 0
