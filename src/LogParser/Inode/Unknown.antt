-- ===== src/LogParser/Inode/Unknown.antt =====
-- A file that cannot be identified.
use xray_exporter.Common.{ℕ, zero, suc, ◌≤◌, ◌≡◌, refl, ◌∙◌, [], ◌∷◌, arith, length, drop}
use xray_exporter.Text.{Text}
use xray_exporter.LogParser.Follow.{Position, LogFile, adopt, raw_lines, advance, parse_log_file}
use xray_exporter.LogParser.Follow.Once.{IsRead, parse_log_file-read}
use xray_exporter.LogParser.Inode.Unix
use xray_exporter.LogParser.Inode.Unix.{Sys, other}

drop-all : (n : ℕ) (s : Text) → length s ≤ n → drop n s ≡ []
drop-all zero [] h = refl
drop-all zero (c ∷ s) h = absurd (omega arith)
drop-all (suc n) [] h = refl
drop-all (suc n) (c ∷ s) h = drop-all n s (omega arith)

adopt-unknown : (f : LogFile) (p : Position) → p.last_inode ≡ 0 → f.inode ≡ 0 → adopt f p ≡ p
unfolding adopt
adopt-unknown f p h e = ground (arith, h, e)

-- A log without a `Stat_t` that is truncated, or replaced by a shorter one, between passes that all read
-- it: a pass hands over no line and stays where it was, however often it is repeated, until the
-- file is longer than what was read of it before.
pub truncated-stuck :
    (f : LogFile) (p : Position)
    → f.inode ≡ Unix.get_inode other
    → p.last_inode ≡ Unix.get_inode other
    → IsRead f
    → length f.bytes ≤ p.last_pos
    → parse_log_file f p ≡ (p, [])
unfolding Unix.get_inode raw_lines advance
truncated-stuck f p file seen v short =
    parse_log_file-read f p v
    ∙ (rw (adopt-unknown f p seen file, drop-all p.last_pos f.bytes short) refl)
