-- ===== src/Exporter/Collect/Complete.antt =====
-- Everything that a scrape without failures sends: no metric is refused for its labels.
use xray_exporter.Common.Float64.{Float64}
use xray_exporter.Text.{Text}
