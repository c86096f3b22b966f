-- ===== src/LogParser/Metrics.antt =====
-- `MetricsData` of internal/logparser/parser.go: a new parser's, the merge of a batch, and the
-- activity in the time window.
pub mod Activity
pub mod Run
use xray_exporter.Common.{
  ℕ, suc, ◌-◌, ◌/◌, ◌*◌, Bool, not, Option, none, some, List, [], ◌∷◌, leb, ltb, if◌then◌else◌,
  length, select,
}
use xray_exporter.Text.{Text, text_eq}
use xray_exporter.GoMap.{GoMap, insert, delete}
use xray_exporter.LogParser.Ring.{Time, Ring, add_all, expire}
use xray_exporter.LogParser.Counts.{CountMaps, merge_counts}

pub record MetricsData : Type 0 where
  pub unique_ips : GoMap Time
  pub counts : CountMaps
  pub connections : Ring

-- `metricsDelta`
pub record MetricsDelta : Type 0 where
  pub counts : CountMaps
  pub unique_ips : GoMap Time
  pub timestamps : List Time

-- time.Minute
abbrev pub minute : ℕ
minute = 60 * 1_000_000_000

unfoldable pub buffer_cap : ℕ → ℕ
buffer_cap time_window =
    let minutes = time_window / minute in
    if leb minutes 5
    then 500_000
    else if leb minutes 10
    then 1_000_000
    else if leb minutes 30
    then 2_000_000
    else 5_000_000

abbrev pub no_counts : CountMaps
no_counts = record {
  domains = [];
  ips = [];
  outbounds = [];
  asns = [];
  countries = [];
  cities = [];
}

-- The metrics of `NewParser`.
unfoldable pub new_metrics : ℕ → MetricsData
unfolding buffer_cap
new_metrics time_window = record {
  unique_ips = [];
  counts = no_counts;
  connections = record { timestamps = []; head = 0; size = 0; cap = buffer_cap time_window };
}

abbrev pub merge_all_counts : CountMaps → CountMaps → CountMaps
merge_all_counts m d = record {
  domains = merge_counts m.domains d.domains;
  ips = merge_counts m.ips d.ips;
  outbounds = merge_counts m.outbounds d.outbounds;
  asns = merge_counts m.asns d.asns;
  countries = merge_counts m.countries d.countries;
  cities = merge_counts m.cities d.cities;
}

-- the loop of `mergeDelta` over the addresses
unfoldable pub merge_ips : GoMap Time → GoMap Time → GoMap Time
merge_ips m [] = m
merge_ips m ((ip, ts) ∷ d) = merge_ips (insert ip ts m) d

-- `mergeDelta`; `none` is the panic of the buffer.
unfoldable pub merge_delta : MetricsDelta → MetricsData → Option MetricsData
merge_delta d m = elim (add_all m.connections d.timestamps) [
  | none ↦ none
  | some ring ↦ some (record {
    unique_ips = merge_ips m.unique_ips d.unique_ips;
    counts = merge_all_counts m.counts d.counts;
    connections = ring;
  })
]

-- What the getters `GetDomainCounts` to `GetCityCounts` return: a clone is the same map.
abbrev pub get_counts : MetricsData → CountMaps
get_counts m = record {
  domains = m.counts.domains;
  ips = m.counts.ips;
  outbounds = m.counts.outbounds;
  asns = m.counts.asns;
  countries = m.counts.countries;
  cities = m.counts.cities;
}

-- The first loop of `GetMetrics`: the number of active addresses, and the expired ones.
unfoldable pub scan_ips : Time → GoMap Time → ℕ × List Text
scan_ips cutoff [] = (0, [])
scan_ips cutoff ((ip, last_seen) ∷ m) =
    let rest = scan_ips cutoff m in
    if ltb cutoff last_seen then (suc rest.0, rest.1) else (rest.0, ip ∷ rest.1)

unfoldable pub delete_all : List Text → GoMap Time → GoMap Time
unfolding delete
delete_all [] m = m
delete_all (ip ∷ ips) m = delete_all ips (delete ip m)

-- The metrics that `GetMetrics` leaves, and the numbers of users and of connections.
unfoldable pub get_metrics : ℕ → Time → MetricsData → Option (MetricsData × (ℕ × ℕ))
unfolding scan_ips delete_all
get_metrics time_window now m =
    let cutoff = now - time_window in
    let (active, expired) = scan_ips cutoff m.unique_ips in
    elim (expire m.connections cutoff) [
      | none ↦ none
      | some ring ↦ some (
        record m { unique_ips = delete_all expired m.unique_ips; connections = ring },
        (active, ring.size),
      )
    ]
