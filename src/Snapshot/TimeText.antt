-- ===== src/Snapshot/TimeText.antt =====
-- Times as text: RFC 3339, which package `time` writes with nanoseconds and reads back.
use xray_exporter.Common.{◌≡◌, ◌≢◌, Option, some, []}
use xray_exporter.Text.{Text}
use xray_exporter.Snapshot.Types.{Time}

-- `Format(time.RFC3339Nano)` and `time.Parse(time.RFC3339, …)`. The parser accepts a fraction of a
-- second, so it reads what the formatter wrote.
pub record TimeText : Type 0 where
  pub format : Time → Text
  pub parse : Text → Option Time
  pub parse-format : (t : Time) → parse (format t) ≡ some t
  pub format-ne-nil : (t : Time) → format t ≢ []
