-- ===== src/LogParser/Batch/Tests.antt =====
-- Passes over a small log.
pub mod Data
use xray_exporter.Common.{
  ℕ, ◌==◌, if◌then◌else◌, ◌-◌, ◌+◌, ◌*◌, ◌^◌, ◌≡◌, refl, true, none, some, List, [], ◌∷◌, ◌++◌, map,
}
use xray_exporter.Text.{Text, codes, text_eq}
use xray_exporter.GoMap.{GoMap, lookup}
use xray_exporter.LogParser.Ring.Window.{contents}
use xray_exporter.LogParser.Ring.Batches.{keep_last}
use xray_exporter.LogParser.Counts.Order.{sort_entries}
use xray_exporter.LogParser.Filter.{Ip, v4, v6, IpText}
use xray_exporter.LogParser.Metrics.{MetricsData, MetricsDelta, new_metrics}
use xray_exporter.LogParser.Metrics.Activity.{new_metrics-IsRing}
use xray_exporter.LogParser.Follow.{Position, LogFile, parse_log_file}
use xray_exporter.LogParser.Batch.{Setting, pass, process_lines, new_delta}
use xray_exporter.LogParser.Batch.Counted.{line_names, user_times}
use xray_exporter.LogParser.Filter.Cache.{Cache, new_cache}
use xray_exporter.LogParser.Batch.Cached.{process_batches}
use xray_exporter.LogParser.Batch.Cached.Agrees.{process_batches-process_lines}
use xray_exporter.LogParser.Batch.Passes.{IsCounted, pass-IsCounted}
use xray_exporter.LogParser.Batch.Events.{
  passed, scraped, trimmed, checked, run_events, filtered_hidden,
}
use xray_exporter.LogParser.Batch.Tests.Data.{setting, log}

abbrev expected : MetricsDelta
expected = record {
  counts = record {
    domains = (codes "example.com", 1) ∷ [];
    ips = (codes "192.0.2.1", 1) ∷ [];
    outbounds = (codes "direct", 2) ∷ (codes "block", 1) ∷ [];
    asns = (codes "64500|Org", 2) ∷ [];
    countries = (codes "DE", 2) ∷ [];
    cities = [];
  };
  unique_ips = (codes "203.0.113.9", 1000) ∷ [];
  timestamps = 1000 ∷ 1000 ∷ [];
}

processed : process_lines setting 900 new_delta log ≡ expected
unfolding process_lines xray_exporter.LogParser.Line.should_skip_line
    xray_exporter.LogParser.Line.Client.parse_line xray_exporter.LogParser.Line.normalize_ip_parsed
    lookup text_eq xray_exporter.Text.trim_end xray_exporter.Text.trim_start
    xray_exporter.GoMap.insert xray_exporter.LogParser.Line.extract_domain
    xray_exporter.LogParser.Line.is_ip_address_fast xray_exporter.Text.contains_rune
    xray_exporter.LogParser.Line.get_root_domain xray_exporter.Text.split xray_exporter.Text.index
    xray_exporter.Text.has_prefix xray_exporter.LogParser.Line.last_index
    xray_exporter.LogParser.Line.extract_outbound xray_exporter.Text.Bytes.trim_space_bytes
    xray_exporter.LogParser.Line.normalize_ip xray_exporter.LogParser.Batch.count_user
    xray_exporter.LogParser.Batch.count_named
processed = refl

abbrev file : LogFile
file = record {
  open_ok = true;
  stat_ok = true;
  seek_ok = true;
  inode = 7;
  size = 89;
  bytes =
      codes
        "2024/01/02 03:04:05 from 203.0.113.9:5000 accepted tcp:a.example.com:443 [in -> direct] "
      ++ 10 ∷ [];
}

abbrev start : Position
start = record { last_pos = 0; last_inode = 0 }

pass-IsCounted_example :
    (m' : MetricsData) × (pass setting 300 1100 file (start, new_metrics 300)
      ≡ some ((parse_log_file file start).0, m'))
    × IsCounted
        (map (line_names setting (1100 - 300)) (parse_log_file file start).1)
        (new_metrics 300).counts
        m'.counts
    × (contents m'.connections
        ≡ keep_last (new_metrics 300).connections.cap (
            contents (new_metrics 300).connections
            ++ user_times setting (1100 - 300) (parse_log_file file start).1))
pass-IsCounted_example =
    pass-IsCounted setting 300 1100 file start (new_metrics 300) (new_metrics-IsRing 300).0

filtered_hidden_example :
    (p : Position) × (m : MetricsData) × (run_events sort_entries setting 300
        (passed file 1100 ∷ checked ∷ scraped 1200 ∷ trimmed ∷ [])
        (record { last_pos = 0; last_inode = 0 }, new_metrics 300)
      ≡ some (p, m))
    × ((ip : Text)
        → setting.should_filter ip ≡ true
        → (lookup ip m.unique_ips ≡ none) × (lookup ip m.counts.ips ≡ none))
filtered_hidden_example =
    filtered_hidden sort_entries setting 300
      (passed file 1100 ∷ checked ∷ scraped 1200 ∷ trimmed ∷ [])

process_batches-process_lines_example :
    (next : Cache) × (process_batches setting ((800, log) ∷ (900, log) ∷ []) new_cache
      ≡ some (
        next,
        map
            (λ (b : ℕ × List Text). process_lines setting b.0 new_delta b.1)
            ((800, log) ∷ (900, log) ∷ []),
      ))
process_batches-process_lines_example =
    process_batches-process_lines setting ((800, log) ∷ (900, log) ∷ [])
