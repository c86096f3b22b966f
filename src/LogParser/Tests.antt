-- ===== src/LogParser/Tests.antt =====
-- Runs of the log parser's buffer and counts.
use xray_exporter.Common.{◌≡◌, refl, true, some, [], ◌∷◌, ◌++◌, arith, length}
use xray_exporter.Common.Sort.{insertion_sort}
use xray_exporter.Text.{codes, text_eq}
use xray_exporter.GoMap.{lookup, insert, Distinct}
use xray_exporter.LogParser.Ring.{Ring, add_connection_timestamp, expire}
use xray_exporter.LogParser.Ring.Window.{IsRing, contents}
use xray_exporter.Common.{inl, map, ◌-◌}
use xray_exporter.LogParser.Follow.{Position, LogFile, parse_log_file, raw_lines, trim_line}
use xray_exporter.LogParser.Follow.Once.{
  IsRead, grown, unread, parse_log_file-grown, parse_log_file-restarted,
}
use xray_exporter.LogParser.Metrics.{MetricsData, MetricsDelta, get_metrics, new_metrics}
use xray_exporter.LogParser.Metrics.Run.{IsSound, merge, scrape, check, trim, run, run-IsSound}
use xray_exporter.LogParser.Metrics.Activity.{IsCleaned, get_metrics-IsCleaned}
use xray_exporter.LogParser.Counts.Order.{sort_entries}
use xray_exporter.LogParser.Counts.{Counts, CountMaps, keep_top_n, check_emergency_cleanup}
use xray_exporter.LogParser.Counts.Bounds.{IsMaps, IsWithin, check_emergency_cleanup-IsWithin}

-- A full buffer of three slots whose oldest timestamp is 20.
abbrev ring : Ring
ring = record { timestamps = 40 ∷ 20 ∷ 30 ∷ []; head = 1; size = 3; cap = 3 }

ring-IsRing : IsRing ring
ring-IsRing = record {
  room = omega arith;
  fits = omega arith;
  held = omega arith;
  inside = omega arith;
  growing = λ h. absurd (omega arith);
}

add_run :
    add_connection_timestamp ring 50
    ≡ some (record ring { timestamps = 40 ∷ 50 ∷ 30 ∷ []; head = 2 })
unfolding add_connection_timestamp
add_run = refl

expire_run : expire ring 25 ≡ some (record ring { size = 2 })
unfolding expire
expire_run = refl

abbrev counts : Counts
counts = (codes "a", 5) ∷ (codes "b", 9) ∷ (codes "c", 1) ∷ []

abbrev batch : Counts
batch = (codes "b", 2) ∷ (codes "d", 4) ∷ []

batch-Distinct : Distinct batch
unfolding lookup text_eq
batch-Distinct = (refl, (refl, tt))

counts-Distinct : Distinct counts
unfolding lookup text_eq
counts-Distinct = (refl, (refl, (refl, tt)))

keep_run : keep_top_n sort_entries counts 2 ≡ (codes "b", 9) ∷ (codes "a", 5) ∷ []
unfolding keep_top_n insertion_sort insert text_eq
keep_run = refl

abbrev maps : CountMaps
maps = record {
  domains = counts;
  ips = [];
  outbounds = batch;
  asns = [];
  countries = [];
  cities = [];
}

maps-IsMaps : IsMaps maps
maps-IsMaps = record {
  domains = counts-Distinct;
  ips = tt;
  outbounds = batch-Distinct;
  asns = tt;
  countries = tt;
  cities = tt;
}

check_emergency_cleanup-IsWithin_example :
    IsWithin 100 40 20 100 (check_emergency_cleanup sort_entries maps)
    × (IsWithin 100 40 20 100 maps → check_emergency_cleanup sort_entries maps ≡ maps)
check_emergency_cleanup-IsWithin_example =
    check_emergency_cleanup-IsWithin sort_entries maps maps-IsMaps

-- Two complete lines and the start of a third.
abbrev log : LogFile
log = record {
  open_ok = true;
  stat_ok = true;
  seek_ok = true;
  inode = 7;
  size = 5;
  bytes = 97 ∷ 10 ∷ 98 ∷ 10 ∷ 99 ∷ [];
}

log-IsRead : IsRead log
log-IsRead = record { open_ok = refl; stat_ok = refl; seek_ok = refl; size = refl }

parse_run :
    parse_log_file log unread
    ≡ (record { last_pos = 4; last_inode = 7 }, (97 ∷ []) ∷ (98 ∷ []) ∷ [])
unfolding parse_log_file
parse_run = refl

parse_log_file-grown_example :
    let first = parse_log_file log unread in
    let second = parse_log_file (grown log (100 ∷ 10 ∷ [])) first.0 in
    let once = parse_log_file (grown log (100 ∷ 10 ∷ [])) unread in
    (first.1 ++ second.1 ≡ once.1) × (second.0 ≡ once.0)
parse_log_file-grown_example =
    parse_log_file-grown log (100 ∷ 10 ∷ []) unread log-IsRead (omega arith)

-- The last pass saw another file.
abbrev elsewhere : Position
elsewhere = record { last_pos = 3; last_inode = 6 }

parse_log_file-restarted_example :
    (parse_log_file log elsewhere ≡ parse_log_file log unread)
    × ((parse_log_file log elsewhere).1 ≡ map trim_line (raw_lines [] log.bytes))
parse_log_file-restarted_example =
    parse_log_file-restarted log elsewhere log-IsRead (λ h. omega arith, inl (λ h. omega arith))

abbrev seen : MetricsData
seen = record {
  unique_ips = (codes "10.0.0.1", 20) ∷ (codes "10.0.0.2", 40) ∷ [];
  counts = maps;
  connections = ring;
}

seen-Distinct : Distinct seen.unique_ips
unfolding lookup text_eq
seen-Distinct = (refl, (refl, tt))

get_metrics-IsCleaned_example :
    (m' : MetricsData) × (get_metrics 25 50 seen
      ≡ some (m', (length m'.unique_ips, length (contents m'.connections))))
    × IsCleaned (50 - 25) seen m'
get_metrics-IsCleaned_example = get_metrics-IsCleaned 25 50 seen ring-IsRing seen-Distinct

abbrev delta : MetricsDelta
delta = record { counts = maps; unique_ips = (codes "10.0.0.1", 50) ∷ []; timestamps = 50 ∷ [] }

run-IsSound_example :
    (m' : MetricsData) × (run sort_entries 25
        (merge delta ∷ scrape 60 ∷ check ∷ trim ∷ [])
        (new_metrics 25)
      ≡ some m')
    × IsSound m'
run-IsSound_example = run-IsSound sort_entries 25 (merge delta ∷ scrape 60 ∷ check ∷ trim ∷ [])
