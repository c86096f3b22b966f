-- ===== src/LogParser/Inode/Tests.antt =====
-- Files that are identified, and one that is not.
use xray_exporter.Common.{◌≡◌, refl, true, [], ◌∷◌, arith}
use xray_exporter.LogParser.Follow.{Position, LogFile, parse_log_file}
use xray_exporter.LogParser.Inode.Unix
use xray_exporter.LogParser.Inode.Unix.{Sys, stat_t, other}
use xray_exporter.LogParser.Inode.Unknown.{truncated-stuck}

-- Ten bytes were read; the file has one line of six since it was truncated.
abbrev unknown_file : LogFile
unknown_file = record {
  open_ok = true;
  stat_ok = true;
  seek_ok = true;
  inode = Unix.get_inode other;
  size = 6;
  bytes = 97 ∷ 98 ∷ 99 ∷ 100 ∷ 101 ∷ 10 ∷ [];
}

abbrev read_ten : Position
read_ten = record { last_pos = 10; last_inode = Unix.get_inode other }

truncated-stuck_example : parse_log_file unknown_file read_ten ≡ (read_ten, [])
truncated-stuck_example =
    truncated-stuck unknown_file read_ten refl refl
      (record { open_ok = refl; stat_ok = refl; seek_ok = refl; size = refl }) (omega arith)

-- With an inode the truncated file is read from its start.
known_run :
    (parse_log_file
      (record unknown_file { inode = Unix.get_inode (stat_t 7) })
      (record read_ten { last_inode = 7 })).1
    ≡ (97 ∷ 98 ∷ 99 ∷ 100 ∷ 101 ∷ []) ∷ []
unfolding parse_log_file Unix.get_inode
known_run = refl
