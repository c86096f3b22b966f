-- ===== src/Exporter/Metrics.antt =====
-- The metrics of exporter.go that come from the Xray stats API and from the log parser's counts.
pub mod Billing
pub mod Ranking
pub mod Accepted
use xray_exporter.Common.{
  ℕ, zero, suc, Bool, true, false, ◌&&◌, not, Option, none, some, List, [], ◌∷◌, ◌++◌, map, length,
  min, take, if◌then◌else◌,
}
use xray_exporter.Common.Float64.{Float64, float_of_int64}
use xray_exporter.Common.Sort.{Sorting}
use xray_exporter.Text.{Text, codes, text_eq, split}
use xray_exporter.GoMap.{GoMap, lookup}
use xray_exporter.Snapshot.Types.{RawCounter}
use xray_exporter.LogParser.Counts.{
  Counts, CountEntry, CountMaps, more_often, max_tracked_domains, max_tracked_ips,
  max_tracked_outbounds, max_tracked_asns, max_tracked_countries, max_tracked_cities,
}

pub record Metric : Type 0 where
  pub name : Text
  pub value : Float64
  pub labels : List Text

-- A statistic of Xray's answer; its value is the bit pattern of an int64.
pub record Stat : Type 0 where
  pub name : Text
  pub value : ℕ

-- The variable labels of the descriptions that `NewExporterWithLogConfig` fills.
abbrev pub metric_descriptions : GoMap (List Text)
metric_descriptions =
    (codes "up", [])
    ∷ (codes "scrape_duration_seconds", [])
    ∷ (codes "uptime_seconds", [])
    ∷ (codes "traffic_uplink_bytes_total", codes "dimension" ∷ codes "target" ∷ [])
    ∷ (codes "traffic_downlink_bytes_total", codes "dimension" ∷ codes "target" ∷ [])
    ∷ (codes "unique_users", [])
    ∷ (codes "total_connections", [])
    ∷ (codes "asns_total", codes "asn" ∷ codes "org" ∷ [])
    ∷ (codes "countries_total", codes "country" ∷ [])
    ∷ (codes "cities_total", codes "city" ∷ codes "country" ∷ [])
    ∷ []

-- A name without a description gets one without labels.
unfoldable pub labels_of : Text → List Text
labels_of metric = elim (lookup metric metric_descriptions) [ none ↦ [] | some ls ↦ ls ]

-- prometheus.NewConstMetric: whether it accepts a name with the label names of its description
-- and the label values.
abbrev pub NewConstMetric : Type 0
NewConstMetric = Text → List Text → List Text → Bool

-- The metrics that one call sends.
unfoldable pub register : NewConstMetric → Text → Float64 → List Text → List Metric
register accepts metric value labels =
    if accepts metric (labels_of metric) labels
    then record { name = metric; value = value; labels = labels } ∷ []
    else []

abbrev pub separator : Text
separator = codes ">>>"

-- the name of the metric of a statistic
abbrev pub metric_name : Text → Text → Text
metric_name kind direction = kind ++ codes "_" ++ direction ++ codes "_bytes_total"

-- the loop's body in `scrapeXrayMetrics`, for the parts of a name
unfoldable pub scrape_parts : NewConstMetric → Bool → ℕ → List Text → List Metric
unfolding register
scrape_parts accepts user_traffic value (p0 ∷ p1 ∷ p2 ∷ p3 ∷ _) =
    if text_eq p0 (codes "user") && not user_traffic
    then []
    else register accepts (metric_name p2 p3) (float_of_int64 value) (p0 ∷ p1 ∷ [])
scrape_parts accepts user_traffic value _ = []

unfoldable pub scrape_xray_metrics : NewConstMetric → Bool → List Stat → List Metric
unfolding scrape_parts
scrape_xray_metrics accepts user_traffic [] = []
scrape_xray_metrics accepts user_traffic (s ∷ stats) =
    scrape_parts accepts user_traffic s.value (split separator s.name)
    ++ scrape_xray_metrics accepts user_traffic stats

-- the loop's body in `TrafficCounters`
counter_parts : Bool → ℕ → List Text → List RawCounter
counter_parts user_traffic value (p0 ∷ p1 ∷ p2 ∷ p3 ∷ _) =
    if text_eq p0 (codes "user") && user_traffic
    then record { identifier = p1; inbound_tag = []; direction = p3; value = value } ∷ []
    else []
counter_parts user_traffic value _ = []

unfoldable pub traffic_counters : Bool → List Stat → List RawCounter
unfolding counter_parts
traffic_counters user_traffic [] = []
traffic_counters user_traffic (s ∷ stats) =
    counter_parts user_traffic s.value (split separator s.name)
    ++ traffic_counters user_traffic stats

unfoldable pub top_n : Sorting more_often → Counts → ℕ → List CountEntry
top_n sorting counts n = let entries = sorting.sort counts in take (min n (length entries)) entries

-- What a collector has sent, and whether it panicked then: MustNewConstMetric panics on what
-- NewConstMetric does not accept.
abbrev pub Sent : Type 0
Sent = List Metric × Bool

-- The gauges of `requested_domain_ip_total` or `outbound_requests_total`, which have one label.
unfoldable pub counted : NewConstMetric → Text → Text → List CountEntry → Sent
counted accepts name label [] = ([], false)
counted accepts name label ((k, c) ∷ entries) =
    let rest = counted accepts name label entries in
    if accepts name (label ∷ []) (k ∷ [])
    then (record { name = name; value = float_of_int64 c; labels = k ∷ [] } ∷ rest.0, rest.1)
    else ([], true)

-- What comes next is sent unless there was a panic.
unfoldable pub then_send : Sent → Sent → Sent
then_send (sent, true) next = (sent, true)
then_send (sent, false) next = (sent ++ next.0, next.1)

-- A log parser that is missing is `none`.
unfoldable pub collect_domain_metrics :
    NewConstMetric → Sorting more_often → Option CountMaps → Sent
unfolding counted then_send
collect_domain_metrics accepts sorting none = ([], false)
collect_domain_metrics accepts sorting (some m) =
    then_send
      (counted accepts (codes "requested_domain_ip_total") (codes "target")
        (top_n sorting m.domains max_tracked_domains))
      (counted accepts (codes "requested_domain_ip_total") (codes "target")
        (top_n sorting m.ips max_tracked_ips))

unfoldable pub collect_outbound_metrics :
    NewConstMetric → Sorting more_often → Option CountMaps → Sent
unfolding counted
collect_outbound_metrics accepts sorting none = ([], false)
collect_outbound_metrics accepts sorting (some m) =
    counted accepts (codes "outbound_requests_total") (codes "outbound")
      (top_n sorting m.outbounds max_tracked_outbounds)

-- The two labels of a key `a|b`.
unfoldable pub two_labels : List Text → List Text
two_labels [] = [] ∷ [] ∷ []
two_labels (a ∷ []) = a ∷ [] ∷ []
two_labels (a ∷ b ∷ _) = a ∷ b ∷ []

unfoldable pub registered :
    NewConstMetric → Text → (Text → List Text) → List CountEntry → List Metric
unfolding register
registered accepts name labels [] = []
registered accepts name labels ((k, c) ∷ entries) =
    register accepts name (float_of_int64 c) (labels k) ++ registered accepts name labels entries

unfoldable pub collect_asn_metrics :
    NewConstMetric → Sorting more_often → Option CountMaps → List Metric
unfolding registered two_labels
collect_asn_metrics accepts sorting none = []
collect_asn_metrics accepts sorting (some m) =
    registered accepts (codes "asns_total") (λ k. two_labels (split (codes "|") k))
      (top_n sorting m.asns max_tracked_asns)

unfoldable pub collect_country_metrics :
    NewConstMetric → Sorting more_often → Option CountMaps → List Metric
unfolding registered
collect_country_metrics accepts sorting none = []
collect_country_metrics accepts sorting (some m) =
    registered accepts (codes "countries_total") (λ k. k ∷ [])
      (top_n sorting m.countries max_tracked_countries)

unfoldable pub collect_city_metrics :
    NewConstMetric → Sorting more_often → Option CountMaps → List Metric
unfolding registered two_labels
collect_city_metrics accepts sorting none = []
collect_city_metrics accepts sorting (some m) =
    registered accepts (codes "cities_total") (λ k. two_labels (split (codes "|") k))
      (top_n sorting m.cities max_tracked_cities)
