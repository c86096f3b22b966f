-- ===== src/LogParser/Batch/Passes.antt =====
-- What a pass over the log adds to the metrics.
use xray_exporter.Common.{ℕ, ◌-◌, ◌≡◌, refl, ap, ◌∙◌, some, List, ◌++◌, map}
use xray_exporter.Text.{Text}
use xray_exporter.GoMap.{lookup}
use xray_exporter.LogParser.Ring.{Time}
use xray_exporter.LogParser.Ring.Window.{IsRing, contents}
use xray_exporter.LogParser.Ring.Batches.{keep_last}
use xray_exporter.LogParser.Counts.{CountMaps}
use xray_exporter.LogParser.Metrics.{MetricsData, merge_all_counts, no_counts}
use xray_exporter.LogParser.Metrics.Activity.{merge_delta-keep_last}
use xray_exporter.LogParser.Follow.{Position, LogFile, parse_log_file}
use xray_exporter.LogParser.Batch.{Setting, process_lines, new_delta, pass}
use xray_exporter.LogParser.Batch.Tally.{occurrences, increased, lookup-merge_counts-count_all}
use xray_exporter.LogParser.Batch.Counted.{
  LineNames, line_names, user_times, count_all_maps, process_lines-names,
}

-- Each count of each map is raised by the number of times that the lines name its key there.
pub record IsCounted (names : List LineNames) (m m' : CountMaps) : Type 0 where
  pub domains :
      (k : Text)
      → lookup k m'.domains
        ≡ increased (lookup k m.domains) (occurrences k (map (λ (n : LineNames). n.domain) names))
  pub ips :
      (k : Text)
      → lookup k m'.ips
        ≡ increased (lookup k m.ips) (occurrences k (map (λ (n : LineNames). n.ip) names))
  pub outbounds :
      (k : Text)
      → lookup k m'.outbounds
        ≡ increased
            (lookup k m.outbounds)
            (occurrences k (map (λ (n : LineNames). n.outbound) names))
  pub asns :
      (k : Text)
      → lookup k m'.asns
        ≡ increased (lookup k m.asns) (occurrences k (map (λ (n : LineNames). n.asn) names))
  pub countries :
      (k : Text)
      → lookup k m'.countries
        ≡ increased
            (lookup k m.countries)
            (occurrences k (map (λ (n : LineNames). n.country) names))
  pub cities :
      (k : Text)
      → lookup k m'.cities
        ≡ increased (lookup k m.cities) (occurrences k (map (λ (n : LineNames). n.city) names))

merge_all_counts-IsCounted :
    (names : List LineNames) (m : CountMaps)
    → IsCounted names m (merge_all_counts m (count_all_maps names no_counts))
merge_all_counts-IsCounted names m = record {
  domains = λ k. lookup-merge_counts-count_all k _ m.domains;
  ips = λ k. lookup-merge_counts-count_all k _ m.ips;
  outbounds = λ k. lookup-merge_counts-count_all k _ m.outbounds;
  asns = λ k. lookup-merge_counts-count_all k _ m.asns;
  countries = λ k. lookup-merge_counts-count_all k _ m.countries;
  cities = λ k. lookup-merge_counts-count_all k _ m.cities;
}

-- On a well-formed buffer a pass of `parseLogFile` does not panic. It raises the count of every domain,
-- address, outbound, network, country and city by the number of its lines that name it, wrapping as
-- int64 does and making the keys that are new, and leaves in the buffer the last of the old
-- timestamps and of those of its users, in the order of the lines, as many as fit.
pub pass-IsCounted :
    (s : Setting) (time_window : ℕ) (now : Time) (file : LogFile) (position : Position)
    (m : MetricsData)
    → IsRing m.connections
    → (m' : MetricsData) × (pass s time_window now file (position, m)
        ≡ some ((parse_log_file file position).0, m'))
      × IsCounted
          (map (line_names s (now - time_window)) (parse_log_file file position).1)
          m.counts
          m'.counts
      × (contents m'.connections
          ≡ keep_last m.connections.cap (
              contents m.connections
              ++ user_times s (now - time_window) (parse_log_file file position).1))
unfolding pass
pass-IsCounted s w now file p m v =
    let lines = (parse_log_file file p).1 in
    let cutoff = now - w in
    let delta = process_lines s cutoff new_delta lines in
    let (m', run, ring, kept, counts, ips) = merge_delta-keep_last delta m v in
    let (names, times) = process_lines-names s cutoff new_delta lines in
    (
      m',
      rw (pass, run) refl,
      rw (counts, names) (merge_all_counts-IsCounted (map (line_names s cutoff) lines) m.counts),
      kept ∙ ap (λ ts. keep_last m.connections.cap (contents m.connections ++ ts)) times,
    )
