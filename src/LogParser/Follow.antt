-- ===== src/LogParser/Follow.antt =====
-- `parseLogFile` of internal/logparser/parser.go: which lines a pass over the log reads, and from where
-- the next one goes on. Texts are bytes here.
pub mod Lines
pub mod Once
use xray_exporter.Common.{
  ℕ, ◌+◌, Bool, true, false, ◌||◌, not, List, [], ◌∷◌, ◌++◌, map, ltb, ◌==◌, if◌then◌else◌, length,
  drop,
}
use xray_exporter.Text.{Text, trim_end}

-- The fields LastPos and LastInode of `MetricsData`.
pub record Position : Type 0 where
  pub last_pos : ℕ
  pub last_inode : ℕ

-- The file of one pass: which of the calls succeed, what `Stat` says, and the bytes that are there when
-- it is read. An inode that is not known is 0.
pub record LogFile : Type 0 where
  pub open_ok : Bool
  pub stat_ok : Bool
  pub seek_ok : Bool
  pub inode : ℕ
  pub size : ℕ
  pub bytes : Text

-- the `switch` on the identity and the size of the file
unfoldable pub adopt : LogFile → Position → Position
adopt f p =
    if p.last_inode == 0
    then record p { last_inode = f.inode }
    else if not (f.inode == p.last_inode)
    then record { last_pos = 0; last_inode = f.inode }
    else if ltb f.size p.last_pos
    then record p { last_pos = 0 }
    else p

abbrev pub newline : ℕ
newline = 10

-- The loop of `ReadString`: each line with its newline; bytes after the last newline are left.
unfoldable pub raw_lines : Text → Text → List Text
raw_lines pending [] = []
raw_lines pending (c ∷ s) =
    let line = pending ++ c ∷ [] in
    let here = raw_lines [] s in
    let further = raw_lines line s in if c == newline then line ∷ here else further

-- newPos
unfoldable pub advance : ℕ → List Text → ℕ
advance pos [] = pos
advance pos (line ∷ lines) = advance (pos + length line) lines

unfoldable pub trim_line : Text → Text
unfolding trim_end
trim_line = trim_end (λ c. c == 13 || c == newline)

-- The position after the pass and the lines that it hands to `processLine`, in order.
unfoldable pub parse_log_file : LogFile → Position → Position × List Text
unfolding adopt raw_lines advance trim_line
parse_log_file f p =
    let start = adopt f p in
    let lines = raw_lines [] (drop start.last_pos f.bytes) in
    if not (f.open_ok)
    then (p, [])
    else if not (f.stat_ok)
    then (p, [])
    else if not (f.seek_ok)
    then (start, [])
    else (record start { last_pos = advance start.last_pos lines }, map trim_line lines)
