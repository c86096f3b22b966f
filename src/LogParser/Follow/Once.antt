-- ===== src/LogParser/Follow/Once.antt =====
-- Every complete line is read once.
use mathlib.Core.List.{map-append}
use xray_exporter.Common.{
  ◌<◌, ◌≤◌, ◌≡◌, ◌≢◌, refl, sym, true, List, [], ◌++◌, map, length, drop, arith, ◌⊎◌, length-append,
  length-drop, ==_iff,
}
use xray_exporter.Text.{Text}
use xray_exporter.LogParser.Follow.{
  Position, LogFile, adopt, raw_lines, advance, trim_line, parse_log_file,
}
use xray_exporter.LogParser.Follow.Lines.{raw_lines-twice, advance-le, advance-append}

-- Every call of the pass succeeds and `Stat` gives the size of what is read.
pub record IsRead (f : LogFile) : Type 0 where
  pub open_ok : f.open_ok ≡ true
  pub stat_ok : f.stat_ok ≡ true
  pub seek_ok : f.seek_ok ≡ true
  pub size : f.size ≡ length f.bytes

abbrev pub grown : LogFile → Text → LogFile
grown f t = record f { size = length (f.bytes ++ t); bytes = f.bytes ++ t }

adopt-le : (f : LogFile) (p : Position) → p.last_pos ≤ f.size → (adopt f p).last_pos ≤ f.size
unfolding adopt
adopt-le f p h = ground arith

adopt-grown :
    (f : LogFile) (t : Text) (p : Position)
    → p.last_pos ≤ length f.bytes
    → f.size ≡ length f.bytes
    → adopt (grown f t) p ≡ adopt f p
unfolding adopt
adopt-grown f t p h e = ground (arith, length-append f.bytes t)

adopt-inode : (f : LogFile) (p : Position) → (adopt f p).last_inode ≡ f.inode
unfolding adopt
adopt-inode f p = ground (arith, ==_iff f.inode p.last_inode)

adopt-stays :
    (f : LogFile) (p : Position) → p.last_inode ≡ f.inode → p.last_pos ≤ f.size → adopt f p ≡ p
unfolding adopt
adopt-stays f p same h = ground (arith, ==_iff f.inode p.last_inode)

-- The pass when every call succeeds.
abbrev pub read_pass : LogFile → Position → Position × List Text
read_pass f p =
    let start = adopt f p in
    let lines = raw_lines [] (drop start.last_pos f.bytes) in
    (record start { last_pos = advance start.last_pos lines }, map trim_line lines)

pub parse_log_file-read :
    (f : LogFile) (p : Position) → IsRead f → parse_log_file f p ≡ read_pass f p
unfolding parse_log_file
parse_log_file-read f p v = rw (v.open_ok, v.stat_ok, v.seek_ok) refl

grown-IsRead : (f : LogFile) (t : Text) → IsRead f → IsRead (grown f t)
grown-IsRead f t v = record {
  open_ok = v.open_ok;
  stat_ok = v.stat_ok;
  seek_ok = v.seek_ok;
  size = refl;
}

-- Where no call of either pass fails, the file's size is that of its bytes, and the position is not
-- past the end of the file: two passes with nothing but appends between them hand over, in order,
-- the same lines as one pass over the grown file, and end in the same position. No complete line
-- from the position on is lost or read twice, even if the first pass saw only a part of it.
pub parse_log_file-grown :
    (f : LogFile) (t : Text) (p : Position)
    → IsRead f
    → p.last_pos ≤ length f.bytes
    → let first = parse_log_file f p in
      let second = parse_log_file (grown f t) first.0 in
      let once = parse_log_file (grown f t) p in
      (first.1 ++ second.1 ≡ once.1) × (second.0 ≡ once.0)
parse_log_file-grown f t p v h =
    let start = adopt f p in
    let n = start.last_pos in
    let le : n ≤ length f.bytes = omega (arith, adopt-le f p (omega (arith, v.size)), v.size) in
    let m = advance n (raw_lines [] (drop n f.bytes)) in
    let most = advance-le n [] (drop n f.bytes) in
    let reached : Position = record start { last_pos = m } in
    let fits : m ≤ length (f.bytes ++ t) =
      omega (arith, most, le, length-drop n f.bytes, length-append f.bytes t) in
    let twice = raw_lines-twice n f.bytes t le in
    let w = grown-IsRead f t v in
    rw
      (
        parse_log_file-read f p v,
        parse_log_file-read (grown f t) p w,
        adopt-grown f t p h v.size,
        parse_log_file-read (grown f t) reached w,
        adopt-stays (grown f t) reached (adopt-inode f p) fits,
        twice,
      )
      (sym (map-append _ _ _), rw (advance-append n (raw_lines [] (drop n f.bytes))) refl)

-- The position before any pass.
abbrev pub unread : Position
unread = record { last_pos = 0; last_inode = 0 }

-- The file is another one than the last pass saw, or has become shorter than what was read.
abbrev pub IsRestarted : LogFile → Position → Type 0
IsRestarted f p = (p.last_inode ≢ 0) × ((f.inode ≢ p.last_inode) ⊎ (f.size < p.last_pos))

adopt-restarted : (f : LogFile) (p : Position) → IsRestarted f p → adopt f p ≡ adopt f unread
unfolding adopt
adopt-restarted f p r = ground (arith, ==_iff p.last_inode 0, ==_iff f.inode p.last_inode)

adopt-unread : (f : LogFile) → (adopt f unread).last_pos ≡ 0
unfolding adopt
adopt-unread f = refl

-- Where the last pass saw an inode other than 0, and the file has another inode now or is shorter
-- than the position: a pass of which no call fails, with a size that is that of the bytes, does what
-- it does on a file never read before, and hands over every complete line of the file.
pub parse_log_file-restarted :
    (f : LogFile) (p : Position)
    → IsRead f
    → IsRestarted f p
    → (parse_log_file f p ≡ parse_log_file f unread)
      × ((parse_log_file f p).1 ≡ map trim_line (raw_lines [] f.bytes))
parse_log_file-restarted f p v r =
    let same : adopt f p ≡ adopt f unread = adopt-restarted f p r in
    let start : (adopt f unread).last_pos ≡ 0 = adopt-unread f in
    rw (parse_log_file-read f p v, parse_log_file-read f unread v, same, start) (refl, refl)
