-- ===== src/Exporter/Collect.antt =====
-- `Collect` of exporter.go with its recovery from panics, and what it calls.
pub mod Names
pub mod Up
pub mod Quiet
pub mod Series
pub mod Expected
pub mod Complete
pub mod Tests
use xray_exporter.Common.{
  ℕ, suc, Bool, true, false, Option, none, some, List, [], ◌∷◌, ◌++◌, if◌then◌else◌,
}
use xray_exporter.Common.Float64.{Float64, whole, seconds_of, float_of_int64, float_of_uint64}
use xray_exporter.Common.Sort.{Sorting}
use xray_exporter.Text.{Text, codes}
use xray_exporter.LogParser.Ring.{Time}
use xray_exporter.LogParser.Counts.{CountMaps, more_often}
use xray_exporter.LogParser.Metrics.{MetricsData, get_metrics}
use xray_exporter.Exporter.Retry.{
  Endpoint, Retried, answered, call_failed, cancelled, exceeded, call_with_retry,
}
use xray_exporter.Exporter.Metrics.{
  Metric, Stat, NewConstMetric, register, scrape_xray_metrics, Sent, then_send,
  collect_domain_metrics, collect_outbound_metrics, collect_asn_metrics, collect_country_metrics,
  collect_city_metrics,
}

-- Xray's answer to GetSysStats, of uint32 and uint64.
pub record SysStats : Type 0 where
  pub uptime : ℕ
  pub num_goroutine : ℕ
  pub alloc : ℕ
  pub total_alloc : ℕ
  pub sys : ℕ
  pub mallocs : ℕ
  pub frees : ℕ
  pub num_gc : ℕ
  pub pause_total_ns : ℕ

-- What a call leaves: its answer, or an error.
unfoldable pub reply_of {ℓ} : {A : Type ℓ} → Retried A → Option A
reply_of (answered resp) = some resp
reply_of (call_failed e) = none
reply_of (cancelled e) = none
reply_of exceeded = none

-- The gauges of names and values, in order.
unfoldable pub gauges : NewConstMetric → List (Text × Float64) → List Metric
gauges accepts [] = []
gauges accepts ((name, value) ∷ values) = register accepts name value [] ++ gauges accepts values

-- What `scrapeXraySysMetrics` registers.
abbrev pub sys_values : SysStats → List (Text × Float64)
sys_values s =
    (codes "uptime_seconds", float_of_uint64 s.uptime)
    ∷ (codes "goroutines", float_of_uint64 s.num_goroutine)
    ∷ (codes "memstats_alloc_bytes", float_of_uint64 s.alloc)
    ∷ (codes "memstats_alloc_bytes_total", float_of_uint64 s.total_alloc)
    ∷ (codes "memstats_sys_bytes", float_of_uint64 s.sys)
    ∷ (codes "memstats_mallocs_total", float_of_uint64 s.mallocs)
    ∷ (codes "memstats_frees_total", float_of_uint64 s.frees)
    ∷ (codes "memstats_num_gc", float_of_uint64 s.num_gc)
    ∷ (codes "memstats_pause_total_ns", float_of_uint64 s.pause_total_ns)
    ∷ []

-- What `Collect` meets: NewConstMetric, the sort, the flag of per-user metrics, the replies of the
-- two calls, the window of the log parser, the time at which `GetMetrics` runs, what each getter
-- returns when it is called, and how many nanoseconds the scrape has taken.
pub record Scrape : Type 0 where
  pub accepts : NewConstMetric
  pub sorting : Sorting more_often
  pub user_traffic : Bool
  pub sys_stats : Endpoint SysStats
  pub stats : Endpoint (List Stat)
  pub time_window : ℕ
  pub now : Time
  pub counts : Option CountMaps
  pub duration : ℕ

-- Metrics, and whether there was no error.
abbrev pub Scraped : Type 0
Scraped = List Metric × Bool

query_stats : Scrape → List Metric → Option (List Stat) → Scraped
query_stats s sent none = (sent, false)
query_stats s sent (some stats) = (sent ++ scrape_xray_metrics s.accepts s.user_traffic stats, true)

unfoldable pub sys_metrics : Scrape → Option SysStats → Scraped
sys_metrics s none = ([], false)
sys_metrics s (some stats) = (gauges s.accepts (sys_values stats), true)

after_sys : Scrape → Scraped → Scraped
unfolding query_stats
after_sys s (sent, false) = (sent, false)
after_sys s (sent, true) = query_stats s sent (reply_of (call_with_retry s.stats).1)

-- `scrapeXray`, with `scrapeXraySysMetrics` and the call of `scrapeXrayMetrics`.
unfoldable pub scrape_xray : Scrape → Scraped
unfolding sys_metrics after_sys
scrape_xray s = after_sys s (sys_metrics s (reply_of (call_with_retry s.sys_stats).1))

-- The two gauges of a log parser's activity; `none` of `get_metrics` is its panic.
activity : Scrape → Option (MetricsData × (ℕ × ℕ)) → Sent
activity s none = ([], true)
activity s (some (m, (users, conns))) = (
  gauges s.accepts (
      (codes "unique_users", float_of_int64 users)
      ∷ (codes "total_connections", float_of_int64 conns)
      ∷ []),
  false,
)

-- `collectLogMetrics`; a log parser that is missing is `none`.
unfoldable pub collect_log_metrics : Scrape → Option MetricsData → Sent
unfolding activity
collect_log_metrics s none = ([], false)
collect_log_metrics s (some m) = activity s (get_metrics s.time_window s.now m)

-- What is sent before the core metrics.
unfoldable pub collected : Scrape → Option MetricsData → Sent
collected s parser =
    then_send ((scrape_xray s).0, false)
      (then_send (collect_log_metrics s parser) (
        then_send (collect_domain_metrics s.accepts s.sorting s.counts) (
          then_send (collect_outbound_metrics s.accepts s.sorting s.counts) (
            then_send (collect_asn_metrics s.accepts s.sorting s.counts, false)
              (then_send (collect_country_metrics s.accepts s.sorting s.counts, false)
                (collect_city_metrics s.accepts s.sorting s.counts, false))))))

abbrev pub bit : Bool → Float64
bit true = whole false 1
bit false = whole false 0

-- The core metrics, or after a panic what the deferred function sends.
core : Scrape → ℕ → Sent → List Metric
core s total (sent, true) = sent ++ register s.accepts (codes "up") (bit false) []
core s total (sent, false) =
    sent
    ++ register s.accepts (codes "up") (bit (scrape_xray s).1) []
    ++ register s.accepts (codes "scrape_duration_seconds") (seconds_of s.duration) []
    ++ record { name = codes "scrapes_total"; value = float_of_uint64 total; labels = [] } ∷ []

-- The metrics of the log parser after `GetMetrics`, where it does not panic.
left_of : Scrape → Option MetricsData → Option MetricsData
left_of s none = none
left_of s (some m) = elim (get_metrics s.time_window s.now m) [ none ↦ none | some r ↦ some r.0 ]

-- The fields of an `Exporter` that `Collect` changes: the number of scrapes and the log parser's
-- metrics; and what it sends.
pub record Collected : Type 0 where
  pub total_scrapes : ℕ
  pub parser : Option MetricsData
  pub sent : List Metric

-- `Collect`
unfoldable pub collect : Scrape → Option MetricsData → ℕ → Collected
unfolding core collected left_of
collect s parser total_scrapes = record {
  total_scrapes = suc total_scrapes;
  parser = left_of s parser;
  sent = core s (suc total_scrapes) (collected s parser);
}
