-- ===== src/LogParser/Inode/Windows.antt =====
-- internal/logparser/inode_windows.go
use xray_exporter.Common.{ℕ, ◌+◌, ◌*◌, ◌%◌, ◌<◌, ◌≡◌, ◌↔◌, Option, none, some, arith}
use xray_exporter.Common.Int64.{modulus}

-- The halves of the file index, each a uint32, of `ByHandleFileInformation`.
pub record FileInformation : Type 0 where
  pub file_index_high : ℕ
  pub file_index_low : ℕ

-- The file index, whose halves share no bit so that `|` is a sum; or, where the call fails, the
-- time of the last write as a uint64.
unfoldable pub get_inode : Option FileInformation → ℕ → ℕ
get_inode (some info) unix_nano =
    (info.file_index_high * 4294967296) % modulus + info.file_index_low
get_inode none unix_nano = unix_nano % modulus

pub record IsIndex (info : FileInformation) : Type 0 where
  pub high : info.file_index_high < 4294967296
  pub low : info.file_index_low < 4294967296

-- With their indices two files are the same exactly when both halves agree, whenever they were written.
pub get_inode-same :
    (a b : FileInformation) (at then_at : ℕ)
    → IsIndex a
    → IsIndex b
    → (get_inode (some a) at ≡ get_inode (some b) then_at)
      ↔ ((a.file_index_high ≡ b.file_index_high) × (a.file_index_low ≡ b.file_index_low))
unfolding get_inode
get_inode-same a b at then_at v w = (λ h. omega arith, λ h. omega arith)
