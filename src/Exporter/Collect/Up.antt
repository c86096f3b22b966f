-- ===== src/Exporter/Collect/Up.antt =====
-- The metric `up` says whether a scrape went well.
use xray_exporter.Common.{
  ℕ, suc, ◌≡◌, refl, ◌∙◌, inl, inr, Bool, true, false, not, ◌&&◌, Option, none, some, List, [], ◌∷◌,
  ◌++◌, select-append, Option-cases,
}
use xray_exporter.Common.Float64.{Float64, seconds_of, float_of_uint64}
use xray_exporter.Text.{codes, text_eq}
use xray_exporter.GoMap.{lookup}
use xray_exporter.LogParser.Metrics.{MetricsData}
use xray_exporter.Exporter.Retry.{call_with_retry}
use xray_exporter.Exporter.Metrics.{Metric, NewConstMetric, register, labels_of}
use xray_exporter.Exporter.Collect.{
  Scrape, reply_of, query_stats, sys_metrics, after_sys, scrape_xray, collected, bit, core, collect,
}
use xray_exporter.Exporter.Collect.Names.{is_up, ups, register-ups, collected-ups}

abbrev pub is_some {ℓ} : {A : Type ℓ} → Option A → Bool
is_some none = false
is_some (some a) = true

-- Xray answered both calls.
abbrev pub both_answered : Scrape → Bool
both_answered s =
    is_some (reply_of (call_with_retry s.sys_stats).1)
    && is_some (reply_of (call_with_retry s.stats).1)

scrape_xray-both_answered : (s : Scrape) → (scrape_xray s).1 ≡ both_answered s
unfolding scrape_xray sys_metrics after_sys query_stats
scrape_xray-both_answered s = elim (Option-cases (reply_of (call_with_retry s.sys_stats).1)) [
  | inl e ↦ rw (scrape_xray, e) refl
  | inr (sys, e) ↦ elim (Option-cases (reply_of (call_with_retry s.stats).1)) [
    | inl f ↦ rw (scrape_xray, e, f) refl
    | inr (stats, f) ↦ rw (scrape_xray, e, f) refl
  ]
]

abbrev up_metric : Float64 → Metric
up_metric value = record { name = codes "up"; value = value; labels = [] }

register-up :
    (accepts : NewConstMetric) (value : Float64)
    → accepts (codes "up") [] [] ≡ true
    → register accepts (codes "up") value [] ≡ up_metric value ∷ []
unfolding register labels_of lookup text_eq
register-up accepts value h = rw h refl

bit-and_false : (b : Bool) → bit (b && false) ≡ bit false
bit-and_false true = refl
bit-and_false false = refl

pub and_true : (b : Bool) → b && true ≡ b
and_true true = refl
and_true false = refl

core-up :
    (s : Scrape) (total : ℕ) (sent : List Metric) (panicked : Bool)
    → s.accepts (codes "up") [] [] ≡ true
    → ups sent ≡ []
    → ups (core s total (sent, panicked)) ≡ up_metric (bit (both_answered s && not panicked)) ∷ []
unfolding core text_eq
core-up s total sent true h none_sent =
    rw (core, register-up s.accepts (bit false) h, bit-and_false (both_answered s))
      (select-append is_up sent (up_metric (bit false) ∷ []) ∙ rw none_sent refl)
core-up s total sent false h none_sent =
    let value = bit (both_answered s) in
    let duration =
      register s.accepts (codes "scrape_duration_seconds") (seconds_of s.duration) [] in
    let scrapes : Metric = record {
      name = codes "scrapes_total";
      value = float_of_uint64 total;
      labels = [];
    } in
    rw
      (core, and_true (both_answered s), scrape_xray-both_answered s, register-up s.accepts value h)
      (select-append is_up ((sent ++ up_metric value ∷ []) ++ duration) (scrapes ∷ [])
        ∙ (rw
            (
              select-append is_up (sent ++ up_metric value ∷ []) duration,
              select-append is_up sent (up_metric value ∷ []),
              none_sent,
              register-ups s.accepts (codes "scrape_duration_seconds") (seconds_of s.duration) []
                  refl,
            )
            refl))

-- Where NewConstMetric accepts the name `up` without labels, `Collect` sends it exactly once: with
-- 1 where Xray answered both calls and nothing panicked, and with 0 otherwise.
pub collect-up :
    (s : Scrape) (parser : Option MetricsData) (total_scrapes : ℕ)
    → s.accepts (codes "up") [] [] ≡ true
    → ups (collect s parser total_scrapes).sent
      ≡ record {
        name = codes "up";
        value = bit (both_answered s && not (collected s parser).1);
        labels = [];
      }
        ∷ []
unfolding collect
collect-up s parser total h =
    core-up s (suc total) (collected s parser).0 (collected s parser).1 h (collected-ups s parser)
