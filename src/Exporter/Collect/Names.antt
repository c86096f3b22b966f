-- ===== src/Exporter/Collect/Names.antt =====
-- No metric but one is named `up`.
use xray_exporter.Common.{
  ℕ, ◌≡◌, refl, ◌∙◌, inl, inr, Bool, true, false, not, ◌&&◌, Option, none, some, List, [], ◌∷◌,
  ◌++◌, arith, any, select, select-append, Bool-cases, Option-cases,
}
use xray_exporter.Common.Float64.{Float64, float_of_int64}
use xray_exporter.Text.{Text, codes, text_eq, split}
use xray_exporter.LogParser.Counts.{
  CountMaps, CountEntry, max_tracked_domains, max_tracked_ips, max_tracked_outbounds,
  max_tracked_asns, max_tracked_countries, max_tracked_cities,
}
use xray_exporter.LogParser.Metrics.{MetricsData, get_metrics}
use xray_exporter.Exporter.Retry.{call_with_retry}
use xray_exporter.Exporter.Metrics.{
  Metric, Stat, NewConstMetric, register, metric_name, scrape_parts, scrape_xray_metrics, separator,
  Sent, counted, then_send, registered, collect_domain_metrics, collect_outbound_metrics,
  collect_asn_metrics, collect_country_metrics, collect_city_metrics, top_n, two_labels,
}
use xray_exporter.Exporter.Collect.{
  Scrape, reply_of, gauges, sys_values, query_stats, sys_metrics, after_sys, scrape_xray, activity,
  collect_log_metrics, collected,
}

abbrev pub is_up : Metric → Bool
is_up m = text_eq m.name (codes "up")

-- The metrics named `up`.
abbrev pub ups : List Metric → List Metric
ups = select is_up

pub register-ups :
    (accepts : NewConstMetric) (name : Text) (value : Float64) (labels : List Text)
    → text_eq name (codes "up") ≡ false
    → ups (register accepts name value labels) ≡ []
unfolding register
register-ups accepts name value labels h = ground (arith, h)

longer-not_up : (s : Text) → text_eq (s ++ codes "_bytes_total") (codes "up") ≡ false
unfolding text_eq
longer-not_up [] = refl
longer-not_up (a ∷ []) = ground arith
longer-not_up (a ∷ b ∷ []) = ground arith
longer-not_up (a ∷ b ∷ c ∷ s) = ground arith

pub append-ups : (xs ys : List Metric) → ups xs ≡ [] → ups ys ≡ [] → ups (xs ++ ys) ≡ []
append-ups xs ys h k = select-append is_up xs ys ∙ (rw (h, k) refl)

scrape_parts-ups :
    (accepts : NewConstMetric) (user : Bool) (value : ℕ) (parts : List Text)
    → ups (scrape_parts accepts user value parts) ≡ []
unfolding scrape_parts
scrape_parts-ups accepts user value [] = refl
scrape_parts-ups accepts user value (p0 ∷ []) = refl
scrape_parts-ups accepts user value (p0 ∷ p1 ∷ []) = refl
scrape_parts-ups accepts user value (p0 ∷ p1 ∷ p2 ∷ []) = refl
scrape_parts-ups accepts user value (p0 ∷ p1 ∷ p2 ∷ p3 ∷ ps) =
    elim (Bool-cases (text_eq p0 (codes "user") && not user)) [
      | inl e ↦ rw e refl
      | inr e ↦ rw e (
          register-ups accepts (metric_name p2 p3) (float_of_int64 value) (p0 ∷ p1 ∷ [])
            (longer-not_up (p2 ++ codes "_" ++ p3)))
    ]

scrape_xray_metrics-ups :
    (accepts : NewConstMetric) (user : Bool) (stats : List Stat)
    → ups (scrape_xray_metrics accepts user stats) ≡ []
unfolding scrape_xray_metrics
scrape_xray_metrics-ups accepts user [] = refl
scrape_xray_metrics-ups accepts user (s ∷ stats) =
    append-ups (scrape_parts accepts user s.value (split separator s.name))
      (scrape_xray_metrics accepts user stats)
      (scrape_parts-ups accepts user s.value (split separator s.name))
      (scrape_xray_metrics-ups accepts user stats)

counted-ups :
    (accepts : NewConstMetric) (name label : Text) (entries : List CountEntry)
    → text_eq name (codes "up") ≡ false
    → ups (counted accepts name label entries).0 ≡ []
unfolding counted
counted-ups accepts name label [] h = refl
counted-ups accepts name label ((k, c) ∷ entries) h =
    ground (arith, h, counted-ups accepts name label entries)

registered-ups :
    (accepts : NewConstMetric) (name : Text) (labels : Text → List Text) (entries : List CountEntry)
    → text_eq name (codes "up") ≡ false
    → ups (registered accepts name labels entries) ≡ []
unfolding registered
registered-ups accepts name labels [] h = refl
registered-ups accepts name labels ((k, c) ∷ entries) h =
    append-ups (register accepts name (float_of_int64 c) (labels k))
      (registered accepts name labels entries)
      (register-ups accepts name (float_of_int64 c) (labels k) h)
      (registered-ups accepts name labels entries h)

then_send-ups : (a b : Sent) → ups a.0 ≡ [] → ups b.0 ≡ [] → ups (then_send a b).0 ≡ []
unfolding then_send
then_send-ups (sent, true) b h k = h
then_send-ups (sent, false) b h k = append-ups sent b.0 h k

gauges-ups :
    (accepts : NewConstMetric) (values : List (Text × Float64))
    → any (λ (v : Text × Float64). text_eq v.0 (codes "up")) values ≡ false
    → ups (gauges accepts values) ≡ []
unfolding gauges
gauges-ups accepts [] h = refl
gauges-ups accepts ((name, value) ∷ values) h =
    append-ups (register accepts name value []) (gauges accepts values)
      (register-ups accepts name value [] (ground (arith, h)))
      (gauges-ups accepts values (ground (arith, h)))

after_sys-ups :
    (s : Scrape) (sent : List Metric) (ok : Bool)
    → ups sent ≡ []
    → ups (after_sys s (sent, ok)).0 ≡ []
unfolding after_sys query_stats
after_sys-ups s sent false h = h
after_sys-ups s sent true h = elim (Option-cases (reply_of (call_with_retry s.stats).1)) [
  | inl e ↦ rw e h
  | inr (stats, e) ↦ rw e (
      append-ups sent (scrape_xray_metrics s.accepts s.user_traffic stats) h
        (scrape_xray_metrics-ups s.accepts s.user_traffic stats))
]

scrape_xray-ups : (s : Scrape) → ups (scrape_xray s).0 ≡ []
unfolding scrape_xray sys_metrics text_eq
scrape_xray-ups s = elim (Option-cases (reply_of (call_with_retry s.sys_stats).1)) [
  | inl e ↦ rw (scrape_xray, e) refl
  | inr (stats, e) ↦
      rw (scrape_xray, e)
        (after_sys-ups s (gauges s.accepts (sys_values stats)) true
          (gauges-ups s.accepts (sys_values stats) refl))
]

collect_log_metrics-ups :
    (s : Scrape) (p : Option MetricsData) → ups (collect_log_metrics s p).0 ≡ []
unfolding collect_log_metrics activity text_eq
collect_log_metrics-ups s none = refl
collect_log_metrics-ups s (some m) = elim (Option-cases (get_metrics s.time_window s.now m)) [
  | inl e ↦ rw e refl
  | inr ((m', (users, conns)), e) ↦ rw e (
      gauges-ups s.accepts
        ((codes "unique_users", float_of_int64 users)
          ∷ (codes "total_connections", float_of_int64 conns)
          ∷ [])
        refl)
]

collect_counts-ups :
    (s : Scrape) (counts : Option CountMaps)
    → (ups (collect_domain_metrics s.accepts s.sorting counts).0 ≡ [])
      × (ups (collect_outbound_metrics s.accepts s.sorting counts).0 ≡ [])
      × (ups (collect_asn_metrics s.accepts s.sorting counts) ≡ [])
      × (ups (collect_country_metrics s.accepts s.sorting counts) ≡ [])
      × (ups (collect_city_metrics s.accepts s.sorting counts) ≡ [])
unfolding collect_domain_metrics collect_outbound_metrics collect_asn_metrics
    collect_country_metrics collect_city_metrics text_eq
collect_counts-ups s none = (refl, refl, refl, refl, refl)
collect_counts-ups s (some m) =
    let domains = top_n s.sorting m.domains max_tracked_domains in
    let ips = top_n s.sorting m.ips max_tracked_ips in
    let requested = codes "requested_domain_ip_total" in
    (
      then_send-ups (counted s.accepts requested (codes "target") domains)
          (counted s.accepts requested (codes "target") ips)
          (counted-ups s.accepts requested (codes "target") domains refl)
          (counted-ups s.accepts requested (codes "target") ips refl),
      counted-ups s.accepts (codes "outbound_requests_total") (codes "outbound")
          (top_n s.sorting m.outbounds max_tracked_outbounds) refl,
      registered-ups s.accepts (codes "asns_total") (λ k. two_labels (split (codes "|") k))
          (top_n s.sorting m.asns max_tracked_asns) refl,
      registered-ups s.accepts (codes "countries_total") (λ k. k ∷ [])
          (top_n s.sorting m.countries max_tracked_countries) refl,
      registered-ups s.accepts (codes "cities_total") (λ k. two_labels (split (codes "|") k))
          (top_n s.sorting m.cities max_tracked_cities) refl,
    )

pub collected-ups : (s : Scrape) (p : Option MetricsData) → ups (collected s p).0 ≡ []
unfolding collected
collected-ups s p =
    let (domain, outbound, asn, country, city) = collect_counts-ups s s.counts in
    let domains = collect_domain_metrics s.accepts s.sorting s.counts in
    let outbounds = collect_outbound_metrics s.accepts s.sorting s.counts in
    let asns : Sent = (collect_asn_metrics s.accepts s.sorting s.counts, false) in
    let countries : Sent = (collect_country_metrics s.accepts s.sorting s.counts, false) in
    let cities : Sent = (collect_city_metrics s.accepts s.sorting s.counts, false) in
    let last = then_send countries cities in
    let after_outbounds = then_send asns last in
    let after_domains = then_send outbounds after_outbounds in
    let after_log = then_send domains after_domains in
    let log = collect_log_metrics s p in
    then_send-ups ((scrape_xray s).0, false) (then_send log after_log) (scrape_xray-ups s)
      (then_send-ups log after_log (collect_log_metrics-ups s p) (
        then_send-ups domains after_domains domain (
          then_send-ups outbounds after_outbounds outbound
            (then_send-ups asns last asn (then_send-ups countries cities country city)))))
