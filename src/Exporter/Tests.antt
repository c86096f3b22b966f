-- ===== src/Exporter/Tests.antt =====
-- Runs of the collector.
use xray_exporter.Common.{
  ℕ, zero, suc, ◌≡◌, ◌≤◌, refl, true, false, none, some, List, [], ◌∷◌, ◌==◌, map, All, length,
  select,
}
use xray_exporter.Text.{codes, text_eq, split}
use xray_exporter.GoMap.{lookup}
use xray_exporter.Snapshot.Types.{RawCounter}
use xray_exporter.LogParser.Counts.Order.{sort_entries}
use xray_exporter.LogParser.Counts.{Counts, CountMaps}
use xray_exporter.Exporter.Retry.{Reply, Endpoint, replied, call_error, call_with_retry}
use xray_exporter.Exporter.Retry.Outcome.{Ended, call_with_retry-Ended}
use xray_exporter.Exporter.Metrics.{
  Stat, NewConstMetric, separator, labels_of, scrape_xray_metrics, traffic_counters,
  collect_domain_metrics, collect_outbound_metrics, collect_asn_metrics, collect_country_metrics,
  collect_city_metrics,
}
use xray_exporter.Exporter.Metrics.Billing.{
  target, billed, is_user, IsAccepted, traffic_counters-scraped,
}
use xray_exporter.Exporter.Metrics.Ranking.{collect-le}

replies : ℕ → Reply ℕ
replies zero = call_error (codes "down")
replies (suc zero) = call_error (codes "down")
replies (suc (suc n)) = replied 7

-- The API is down for the first two attempts.
abbrev recovering : Endpoint ℕ
recovering = record { call = replies; wait = λ attempt d. none }

call_with_retry-Ended_example :
    Ended recovering (call_with_retry recovering).0 (call_with_retry recovering).1
call_with_retry-Ended_example = call_with_retry-Ended recovering

-- As many label values as label names.
abbrev same_length : NewConstMetric
same_length name labels values = length labels == length values

abbrev stats : List Stat
stats =
    record { name = codes "user>>>u1>>>traffic>>>uplink"; value = 5 }
    ∷ record { name = codes "inbound>>>socks>>>traffic>>>downlink"; value = 6 }
    ∷ record { name = codes "odd"; value = 7 }
    ∷ []

stats-IsAccepted : All (λ (s : Stat). IsAccepted same_length (split separator s.name)) stats
unfolding split labels_of lookup text_eq
stats-IsAccepted = ((λ h. refl), ((λ h. refl), (tt, tt)))

traffic_counters-scraped_example :
    (map billed (traffic_counters true stats)
      ≡ map target (select is_user (scrape_xray_metrics same_length true stats)))
    × (true ≡ false → traffic_counters true stats ≡ [])
traffic_counters-scraped_example = traffic_counters-scraped same_length true stats stats-IsAccepted

traffic_counters_run : map (λ (c : RawCounter). c.value) (traffic_counters true stats) ≡ 5 ∷ []
unfolding traffic_counters split text_eq
traffic_counters_run = refl

abbrev counts : Counts
counts = (codes "a|x", 5) ∷ (codes "b|y", 9) ∷ []

abbrev maps : CountMaps
maps = record {
  domains = counts;
  ips = counts;
  outbounds = counts;
  asns = counts;
  countries = counts;
  cities = counts;
}

collect-le_example :
    (length (collect_domain_metrics same_length sort_entries (some maps)).0 ≤ 40)
    × (length (collect_outbound_metrics same_length sort_entries (some maps)).0 ≤ 10)
    × (length (collect_asn_metrics same_length sort_entries (some maps)) ≤ 20)
    × (length (collect_country_metrics same_length sort_entries (some maps)) ≤ 20)
    × (length (collect_city_metrics same_length sort_entries (some maps)) ≤ 20)
collect-le_example = collect-le same_length sort_entries (some maps)
