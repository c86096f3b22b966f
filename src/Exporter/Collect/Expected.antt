-- ===== src/Exporter/Collect/Expected.antt =====
-- What a scrape without failures is to send, with all labels in UTF-8.
use xray_exporter.Common.{ℕ, Bool, false, List, [], ◌∷◌, ◌++◌, map}
use xray_exporter.Common.Float64.{whole, seconds_of, float_of_int64, float_of_uint64}
use xray_exporter.Text.{Text, codes}
use xray_exporter.LogParser.Counts.{
  CountMaps, max_tracked_domains, max_tracked_ips, max_tracked_outbounds, max_tracked_asns,
  max_tracked_countries, max_tracked_cities,
}
use xray_exporter.Exporter.Metrics.{Metric, top_n}
use xray_exporter.Exporter.Collect.{SysStats, Scrape, sys_values}
use xray_exporter.Exporter.Metrics.Accepted.{
  Utf8Keys, one_label, pair_of, gauge, series, Traffic, traffic_metric,
}

-- The labels of the exported keys are UTF-8: those of a map with one label, and the pairs.
abbrev pub Utf8Counts : (Text → Bool) → Scrape → CountMaps → Type 0
Utf8Counts valid s m =
    Utf8Keys valid one_label (top_n s.sorting m.domains max_tracked_domains)
    × Utf8Keys valid one_label (top_n s.sorting m.ips max_tracked_ips)
    × Utf8Keys valid one_label (top_n s.sorting m.outbounds max_tracked_outbounds)
    × Utf8Keys valid pair_of (top_n s.sorting m.asns max_tracked_asns)
    × Utf8Keys valid one_label (top_n s.sorting m.countries max_tracked_countries)
    × Utf8Keys valid pair_of (top_n s.sorting m.cities max_tracked_cities)

-- What a scrape without failures sends, written without any test.
abbrev pub expected_before_up : Scrape → SysStats → List Traffic → ℕ → ℕ → CountMaps → List Metric
expected_before_up s sys traffics users connections m =
    let requested = series (codes "requested_domain_ip_total") one_label in
    let exported = top_n s.sorting in
    let activity_of =
      (codes "unique_users", float_of_int64 users)
      ∷ (codes "total_connections", float_of_int64 connections)
      ∷ [] in
    let domains = map requested (exported m.domains max_tracked_domains) in
    let ips = map requested (exported m.ips max_tracked_ips) in
    let outbounds =
      map (series (codes "outbound_requests_total") one_label)
        (exported m.outbounds max_tracked_outbounds) in
    let asns = map (series (codes "asns_total") pair_of) (exported m.asns max_tracked_asns) in
    let countries =
      map (series (codes "countries_total") one_label)
        (exported m.countries max_tracked_countries) in
    let cities =
      map (series (codes "cities_total") pair_of) (exported m.cities max_tracked_cities) in
    (map gauge (sys_values sys) ++ map traffic_metric traffics)
    ++ (map gauge activity_of
        ++ ((domains ++ ips) ++ (outbounds ++ (asns ++ (countries ++ cities)))))

abbrev pub expected : Scrape → SysStats → List Traffic → ℕ → ℕ → CountMaps → ℕ → List Metric
expected s sys traffics users connections m total =
    expected_before_up s sys traffics users connections m
    ++ gauge (codes "up", whole false 1) ∷ []
    ++ gauge (codes "scrape_duration_seconds", seconds_of s.duration) ∷ []
    ++ gauge (codes "scrapes_total", float_of_uint64 total) ∷ []
