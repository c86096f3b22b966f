-- ===== src/LogParser/Loop/Growing.antt =====
-- A log that is only appended to, while the loop reads it: where the loop stands in it.
use mathlib.Core.List.{append_assoc, append-nil}
use xray_exporter.Common.{
  ℕ, ◌≤◌, ◌≡◌, refl, sym, ap, ◌∙◌, ◌⊎◌, inl, inr, Bool, ◌&&◌, List, [], ◌∷◌, ◌++◌, map, arith,
  length, drop, length-append, length-drop, ==_iff, Bool-cases,
}
use xray_exporter.Text.{Text}
use xray_exporter.LogParser.Ring.{Time}
use xray_exporter.LogParser.Follow.{
  Position, LogFile, adopt, raw_lines, advance, trim_line, parse_log_file,
}
use xray_exporter.LogParser.Follow.Once.{read_pass}
use xray_exporter.LogParser.Follow.Lines.{raw_lines-twice, advance-le}
use xray_exporter.LogParser.Loop.{Event, cleanup_ticked, checked, ticked, scraped}

-- Which calls of a pass succeed.
pub record Calls : Type 0 where
  pub open_ok : Bool
  pub stat_ok : Bool
  pub seek_ok : Bool

-- Bytes are written; a pass reads the log, and `late` is written between its `Stat` and its reads;
-- the check after it; a trim of the cleanup ticker; a scrape.
pub data Move : Type 0 where
  wrote : Text → Move
  passed : Calls → (late : Text) → Time → Move
  rechecked trimmed : Move
  looked : Time → Move

abbrev pub log_file : ℕ → Calls → Text → Text → LogFile
log_file inode calls bytes late = record {
  open_ok = calls.open_ok;
  stat_ok = calls.stat_ok;
  seek_ok = calls.seek_ok;
  inode = inode;
  size = length bytes;
  bytes = bytes ++ late;
}

-- What the loop meets, when the log has the bytes before.
unfoldable pub events_of : ℕ → Text → List Move → List Event
events_of inode bytes [] = []
events_of inode bytes (wrote t ∷ moves) = events_of inode (bytes ++ t) moves
events_of inode bytes (passed calls late now ∷ moves) =
    ticked (λ path. log_file inode calls bytes late) now ∷ events_of inode (bytes ++ late) moves
events_of inode bytes (rechecked ∷ moves) = checked ∷ events_of inode bytes moves
events_of inode bytes (trimmed ∷ moves) = cleanup_ticked ∷ events_of inode bytes moves
events_of inode bytes (looked now ∷ moves) = scraped now ∷ events_of inode bytes moves

-- All bytes that are written.
unfoldable pub written : List Move → Text
written [] = []
written (wrote t ∷ moves) = t ++ written moves
written (passed calls late now ∷ moves) = late ++ written moves
written (rechecked ∷ moves) = written moves
written (trimmed ∷ moves) = written moves
written (looked now ∷ moves) = written moves

-- The position is behind the lines that were read, however the log goes on.
pub record IsAt (inode : ℕ) (bytes : Text) (lines : List Text) (p : Position) : Type 0 where
  pub same : (p.last_inode ≡ 0) ⊎ (p.last_inode ≡ inode)
  pub fits : p.last_pos ≤ length bytes
  pub split :
      (t : Text) → raw_lines [] (bytes ++ t) ≡ lines ++ raw_lines [] (drop p.last_pos (bytes ++ t))

pub IsAt-append :
    (inode : ℕ) (bytes t : Text) (lines : List Text) (p : Position)
    → IsAt inode bytes lines p
    → IsAt inode (bytes ++ t) lines p
IsAt-append inode bytes t lines p v = record {
  same = v.same;
  fits = omega (arith, v.fits, length-append bytes t);
  split = λ u. rw (append_assoc bytes t u) (v.split (t ++ u));
}

adopt-same :
    (f : LogFile) (p : Position)
    → (p.last_inode ≡ 0) ⊎ (p.last_inode ≡ f.inode)
    → p.last_pos ≤ f.size
    → adopt f p ≡ record { last_pos = p.last_pos; last_inode = f.inode }
unfolding adopt
adopt-same f p h le = ground (arith, ==_iff p.last_inode 0, ==_iff f.inode p.last_inode)

parse_log_file-cases :
    (f : LogFile) (p : Position)
    → (parse_log_file f p ≡ (p, []))
      ⊎ (parse_log_file f p ≡ (adopt f p, []))
      ⊎ (parse_log_file f p ≡ read_pass f p)
unfolding parse_log_file
parse_log_file-cases f p = elim (Bool-cases (f.open_ok && f.stat_ok)) [
  | inl e ↦ elim (Bool-cases f.seek_ok) [
    | inl g ↦ inr (inr (ground arith))
    | inr g ↦ inr (inl (ground arith))
  ]
  | inr e ↦ inl (ground arith)
]

-- Where a pass leaves off: the lines that it hands over, and that the position is behind them.
abbrev Handed : ℕ → Text → List Text → Position × List Text → Type 0
Handed inode bytes lines result =
    (more : List Text) × (result.1 ≡ map trim_line more) × IsAt inode bytes (lines ++ more) result.0

unread-Handed :
    (inode : ℕ) (bytes : Text) (lines : List Text) (p : Position)
    → IsAt inode bytes lines p
    → Handed inode bytes lines (p, [])
unread-Handed inode bytes lines p v = ([], refl, rw (append-nil lines) v)

-- A pass that reads hands over all the lines that are complete.
pub read_pass-IsAt :
    (inode : ℕ) (calls : Calls) (bytes late : Text) (lines : List Text) (p : Position)
    → IsAt inode bytes lines p
    → let f = log_file inode calls bytes late in
      let more = raw_lines [] (drop p.last_pos (bytes ++ late)) in
      ((read_pass f p).1 ≡ map trim_line more)
      × IsAt inode (bytes ++ late) (lines ++ more) (read_pass f p).0
read_pass-IsAt inode calls bytes late lines p v =
    let stays = IsAt-append inode bytes late lines p v in
    let n = p.last_pos in
    let all = bytes ++ late in
    let more = raw_lines [] (drop n all) in
    let most = advance-le n [] (drop n all) in
    let known : IsAt inode all (lines ++ more)
        (record { last_pos = advance n more; last_inode = inode }) =
      record {
        same = inr refl;
        fits = omega (arith, most, stays.fits, length-drop n all);
        split = λ t.
            stays.split t
            ∙ ap (λ (rest : List Text). lines ++ rest) (raw_lines-twice n all t stays.fits)
            ∙ sym (append_assoc lines more _);
      } in
    rw (adopt-same (log_file inode calls bytes late) p v.same v.fits) (refl, known)

-- A pass hands over the lines from the position on, or none where a call fails, and stands behind them.
pub parse_log_file-IsAt :
    (inode : ℕ) (calls : Calls) (bytes late : Text) (lines : List Text) (p : Position)
    → IsAt inode bytes lines p
    → Handed inode (bytes ++ late) lines (parse_log_file (log_file inode calls bytes late) p)
parse_log_file-IsAt inode calls bytes late lines p v =
    let f = log_file inode calls bytes late in
    let stays = IsAt-append inode bytes late lines p v in
    let adopted : Position = record { last_pos = p.last_pos; last_inode = inode } in
    let marked : IsAt inode (bytes ++ late) lines adopted = record {
      same = inr refl;
      fits = stays.fits;
      split = stays.split;
    } in
    elim (parse_log_file-cases f p) [
      | inl e ↦ rw e (unread-Handed inode (bytes ++ late) lines p stays)
      | inr (inl e) ↦
          rw (e, adopt-same f p v.same v.fits)
            (unread-Handed inode (bytes ++ late) lines adopted marked)
      | inr (inr e) ↦
          let (handed, at) = read_pass-IsAt inode calls bytes late lines p v in
          rw e (raw_lines [] (drop p.last_pos (bytes ++ late)), handed, at)
    ]
