-- ===== src/Exporter/Collect/Tests.antt =====
-- Runs of a scrape.
use xray_exporter.Common.{
  ◌≡◌, refl, true, not, ◌&&◌, none, some, [], ◌∷◌, ◌==◌, length, map, List, Bool, Bool-cases, inl,
  inr, false, any, leb, ◌++◌, ℕ,
}
use xray_exporter.Common.Float64.{whole, seconds_of}
use xray_exporter.Text.{Text, codes, split}
use xray_exporter.LogParser.Counts.Order.{sort_entries}
use xray_exporter.LogParser.Metrics.{MetricsData, new_metrics, no_counts}
use xray_exporter.LogParser.Counts.{CountMaps}
use xray_exporter.Exporter.Retry.{Reply, Endpoint, replied, call_error}
use xray_exporter.Exporter.Metrics.{Metric, Stat, NewConstMetric, top_n}
use xray_exporter.Exporter.Metrics.Accepted.{Traffic, stat_of}
use xray_exporter.Exporter.Collect.{SysStats, Scrape, collected, bit, collect}
use xray_exporter.Exporter.Collect.Names.{ups}
use xray_exporter.LogParser.Metrics.Run.{scrape, trim, check, run}
use xray_exporter.Exporter.Collect.Quiet.{NeedsUtf8, labels_of_counts, run-both_answered}
use xray_exporter.Exporter.Collect.Up.{both_answered, collect-up}

-- For labels in ASCII, which is valid UTF-8.
abbrev pub is_ascii : Text → Bool
is_ascii t = not (any (λ c. leb 128 c) t)

abbrev pub matching : NewConstMetric
matching name labels values =
    (length labels == length values) && not (any (λ v. not (is_ascii v)) values)

pub matching-NeedsUtf8 : (name label : Text) → NeedsUtf8 is_ascii matching name label
matching-NeedsUtf8 name label k = elim (Bool-cases (is_ascii k)) [
  | inl e ↦ rw e refl
  | inr e ↦ rw e refl
]

abbrev sys : SysStats
sys = record {
  uptime = 60;
  num_goroutine = 9;
  alloc = 1;
  total_alloc = 2;
  sys = 3;
  mallocs = 4;
  frees = 5;
  num_gc = 6;
  pause_total_ns = 7;
}

-- Xray answers the first call, and the statistics never.
abbrev pub half : Scrape
half = record {
  accepts = matching;
  sorting = sort_entries;
  user_traffic = true;
  sys_stats = record { call = λ attempt. replied sys; wait = λ attempt d. none };
  stats = record { call = λ attempt. call_error (codes "down"); wait = λ attempt d. none };
  time_window = 300;
  now = 1000;
  counts = none;
  duration = 5;
}

collect_run :
    map (λ (m : Metric). m.value) (collect half none 4).sent
    ≡ map (whole false) (60 ∷ 9 ∷ 1 ∷ 2 ∷ 3 ∷ 4 ∷ 5 ∷ 6 ∷ 7 ∷ 0 ∷ [])
      ++ seconds_of 5 ∷ whole false 5 ∷ []
unfolding collect xray_exporter.Exporter.Metrics.then_send
    xray_exporter.Exporter.Collect.collect_log_metrics
    xray_exporter.Exporter.Metrics.collect_domain_metrics
    xray_exporter.Exporter.Metrics.collect_outbound_metrics
    xray_exporter.Exporter.Collect.scrape_xray xray_exporter.Exporter.Collect.reply_of
    xray_exporter.Exporter.Retry.call_with_retry xray_exporter.Exporter.Collect.gauges
    xray_exporter.Exporter.Metrics.register xray_exporter.Exporter.Metrics.labels_of
    xray_exporter.GoMap.lookup xray_exporter.Text.text_eq
    xray_exporter.Exporter.Metrics.collect_asn_metrics
    xray_exporter.Exporter.Metrics.collect_country_metrics
    xray_exporter.Exporter.Metrics.collect_city_metrics xray_exporter.Common.Float64.float_of_uint64
collect_run = refl

collect-up_example :
    ups (collect half (some (new_metrics 300)) 4).sent
    ≡ record {
      name = codes "up";
      value = bit (both_answered half && not (collected half (some (new_metrics 300))).1);
      labels = [];
    }
      ∷ []
collect-up_example = collect-up half (some (new_metrics 300)) 4 refl

-- Xray answers both calls, the second with the traffic of a user and of an inbound.
abbrev traffics : List Traffic
traffics =
    record { dimension = codes "user"; target = codes "ann"; is_uplink = true; bytes = 7 }
    ∷ record { dimension = codes "inbound"; target = codes "socks"; is_uplink = false; bytes = 8 }
    ∷ []

abbrev counts : CountMaps
counts = record no_counts {
  domains = (codes "example.org", 3) ∷ [];
  outbounds = (codes "direct", 3) ∷ [];
  asns = (codes "64500|Example", 2) ∷ [];
  cities = (codes "unknown", 1) ∷ [];
}

abbrev answering : Scrape
answering = record half {
  stats = record { call = λ attempt. replied (map stat_of traffics); wait = λ attempt d. none };
  counts = some counts;
}

run-both_answered_example :
    (m : MetricsData) × (run sort_entries 300 (scrape 900 ∷ trim ∷ check ∷ []) (new_metrics 300)
      ≡ some m)
    × (ups (collect answering (some m) 4).sent
        ≡ record {
          name = codes "up";
          value =
              bit (both_answered answering && labels_of_counts is_ascii answering (some counts));
          labels = [];
        }
          ∷ [])
run-both_answered_example =
    run-both_answered is_ascii answering
      (matching-NeedsUtf8 (codes "requested_domain_ip_total") (codes "target"))
      (matching-NeedsUtf8 (codes "outbound_requests_total") (codes "outbound"))
      (scrape 900 ∷ trim ∷ check ∷ []) 4 refl

-- One request for a target that is not UTF-8 makes `up` 0, though Xray answers.
abbrev torn : Scrape
torn = record answering { counts = some (record counts { domains = (200 ∷ codes ".org", 1) ∷ [] }) }

torn_run :
    ups (collect torn none 4).sent
    ≡ record { name = codes "up"; value = whole false 0; labels = [] } ∷ []
unfolding collect xray_exporter.Exporter.Metrics.then_send
    xray_exporter.Exporter.Collect.collect_log_metrics
    xray_exporter.Exporter.Metrics.collect_domain_metrics top_n
    xray_exporter.Common.Sort.insertion_sort xray_exporter.Exporter.Collect.scrape_xray
    xray_exporter.Exporter.Collect.reply_of xray_exporter.Exporter.Retry.call_with_retry
    xray_exporter.Exporter.Collect.gauges xray_exporter.Exporter.Metrics.register
    xray_exporter.Exporter.Metrics.labels_of xray_exporter.GoMap.lookup xray_exporter.Text.text_eq
    xray_exporter.Exporter.Metrics.scrape_xray_metrics split
torn_run = refl
