-- ===== src/Exporter/Collect/Quiet.antt =====
-- When the metric `up` is 1: the panics of `MustNewConstMetric` on labels that are not UTF-8.
use mathlib.Core.Option.{some-injective}
use xray_exporter.Common.{
  subst, ℕ, ◌≡◌, refl, ap, ap₂, ◌∙◌, inl, inr, Bool, true, false, not, ◌&&◌, ◌||◌, Option, none,
  some, List, [], ◌∷◌, Bool-cases,
}
use xray_exporter.Common.Float64.{Float64}
use xray_exporter.Text.{Text, codes}
use xray_exporter.LogParser.Counts.{
  CountMaps, CountEntry, max_tracked_domains, max_tracked_ips, max_tracked_outbounds,
}
use xray_exporter.LogParser.Metrics.{MetricsData, new_metrics}
use xray_exporter.LogParser.Metrics.Run.{IsSound, Operation, run, run-IsSound}
use xray_exporter.LogParser.Metrics.Activity.{get_metrics-IsCleaned}
use xray_exporter.Exporter.Metrics.{
  Metric, NewConstMetric, Sent, counted, then_send, collect_domain_metrics,
  collect_outbound_metrics, collect_asn_metrics, collect_country_metrics, collect_city_metrics,
  top_n,
}
use xray_exporter.Exporter.Collect.{Scrape, activity, collect_log_metrics, collected, bit, collect}
use xray_exporter.Exporter.Collect.Names.{ups}
use xray_exporter.Exporter.Collect.Up.{both_answered, collect-up}

-- What client_golang documents: of one value for one label, NewConstMetric refuses exactly what is
-- not UTF-8; `valid` is `utf8.ValidString`.
abbrev pub NeedsUtf8 : (Text → Bool) → NewConstMetric → Text → Text → Type 0
NeedsUtf8 valid accepts name label = (k : Text) → accepts name (label ∷ []) (k ∷ []) ≡ valid k

module _ (valid : Text → Bool) where
  -- Whether all keys are UTF-8.
  unfoldable pub all_keys : List CountEntry → Bool
  all_keys [] = true
  all_keys ((k, c) ∷ entries) = valid k && all_keys entries

  -- Whether the labels are UTF-8 that the log's counts give to the two request metrics.
  abbrev pub labels_of_counts : Scrape → Option CountMaps → Bool
  labels_of_counts s none = true
  labels_of_counts s (some m) =
      all_keys (top_n s.sorting m.domains max_tracked_domains)
      && all_keys (top_n s.sorting m.ips max_tracked_ips)
      && all_keys (top_n s.sorting m.outbounds max_tracked_outbounds)

  pub counted-panics :
      (accepts : NewConstMetric) (name label : Text) (entries : List CountEntry)
      → NeedsUtf8 valid accepts name label
      → (counted accepts name label entries).1 ≡ not (all_keys entries)
  unfolding counted all_keys
  counted-panics accepts name label [] h = refl
  counted-panics accepts name label ((k, c) ∷ entries) h = elim (Bool-cases (valid k)) [
    | inl e ↦ rw (h k, e) (counted-panics accepts name label entries h)
    | inr e ↦ rw (h k, e) refl
  ]

pub then_send-panics : (a b : Sent) → (then_send a b).1 ≡ a.1 || b.1
unfolding then_send
then_send-panics (sent, true) b = refl
then_send-panics (sent, false) b = refl

pub collect_log_metrics-quiet :
    (s : Scrape) (parser : Option MetricsData)
    → ((m : MetricsData) → parser ≡ some m → IsSound m)
    → (collect_log_metrics s parser).1 ≡ false
unfolding collect_log_metrics activity
collect_log_metrics-quiet s none v = refl
collect_log_metrics-quiet s (some m) v =
    let sound = v m refl in
    let (m', run, clean) = get_metrics-IsCleaned s.time_window s.now m sound.ring sound.ips in
    rw run refl

some_not : (a b c : Bool) → (not a || not b) || not c ≡ not (a && b && c)
some_not true true c = refl
some_not true false c = refl
some_not false b c = refl

or_false : (a : Bool) → a || false ≡ a
or_false true = refl
or_false false = refl

not-not : (a : Bool) → not (not a) ≡ a
not-not true = refl
not-not false = refl

module _ (valid : Text → Bool) (s : Scrape)
    (targets : NeedsUtf8 valid s.accepts (codes "requested_domain_ip_total") (codes "target"))
    (outbounds : NeedsUtf8 valid s.accepts
      (codes "outbound_requests_total")
      (codes "outbound")) where
  -- The collectors of the request metrics panic exactly at a label that is not UTF-8.
  collect_counts-panics :
      (counts : Option CountMaps)
      → (collect_domain_metrics s.accepts s.sorting counts).1
          || (collect_outbound_metrics s.accepts s.sorting counts).1
        ≡ not (labels_of_counts valid s counts)
  unfolding collect_domain_metrics collect_outbound_metrics
  collect_counts-panics none = refl
  collect_counts-panics (some m) =
      let name = codes "requested_domain_ip_total" in
      let domains = top_n s.sorting m.domains max_tracked_domains in
      let ips = top_n s.sorting m.ips max_tracked_ips in
      let requests = top_n s.sorting m.outbounds max_tracked_outbounds in
      let either : Bool → Bool → Bool = λ a b. a || b in
      ap₂ either
        (then_send-panics (counted s.accepts name (codes "target") domains)
            (counted s.accepts name (codes "target") ips)
          ∙ ap₂ either (counted-panics valid s.accepts name (codes "target") domains targets)
              (counted-panics valid s.accepts name (codes "target") ips targets))
        (counted-panics valid s.accepts (codes "outbound_requests_total") (codes "outbound")
          requests outbounds)
      ∙ some_not (all_keys valid domains) (all_keys valid ips) (all_keys valid requests)

  collected-panics :
      (parser : Option MetricsData)
      → ((m : MetricsData) → parser ≡ some m → IsSound m)
      → (collected s parser).1 ≡ not (labels_of_counts valid s s.counts)
  unfolding collected then_send
  collected-panics parser v =
      let domain = collect_domain_metrics s.accepts s.sorting s.counts in
      let outbound = collect_outbound_metrics s.accepts s.sorting s.counts in
      let asns : Sent = (collect_asn_metrics s.accepts s.sorting s.counts, false) in
      let countries : Sent = (collect_country_metrics s.accepts s.sorting s.counts, false) in
      let cities : Sent = (collect_city_metrics s.accepts s.sorting s.counts, false) in
      let rest = then_send asns (then_send countries cities) in
      let after_domains = then_send outbound rest in
      let after_log = then_send domain after_domains in
      then_send-panics (collect_log_metrics s parser) after_log
      ∙ ap (λ x. x || after_log.1) (collect_log_metrics-quiet s parser v)
      ∙ then_send-panics domain after_domains
      ∙ ap (λ x. domain.1 || x) (then_send-panics outbound rest ∙ or_false outbound.1)
      ∙ collect_counts-panics s.counts

  -- Where NewConstMetric accepts the name `up`, and of the labels of the two request metrics exactly
  -- those that are UTF-8: after any sequence of merged batches, scrapes, trims and checks on a new
  -- log parser, none of which panics, `Collect` sends `up` exactly once, with 1 if Xray answered both
  -- calls and every target and outbound among the exported ones is UTF-8, and with 0 otherwise.
  pub run-both_answered :
      (operations : List Operation) (total_scrapes : ℕ)
      → s.accepts (codes "up") [] [] ≡ true
      → (m : MetricsData) × (run s.sorting s.time_window operations (new_metrics s.time_window)
          ≡ some m)
        × (ups (collect s (some m) total_scrapes).sent
            ≡ record {
              name = codes "up";
              value = bit (both_answered s && labels_of_counts valid s s.counts);
              labels = [];
            }
              ∷ [])
  run-both_answered operations total up =
      let (m, e, sound) = run-IsSound s.sorting s.time_window operations in
      let reached : (n : MetricsData) → some m ≡ some n → IsSound n =
        λ n q. subst IsSound (some-injective m n q) sound in
      let shown : Float64 → List Metric =
        λ value. record { name = codes "up"; value = value; labels = [] } ∷ [] in
      let panics = collected-panics (some m) reached in
      (
        m,
        e,
        collect-up s (some m) total up
            ∙ ap (λ p. shown (bit (both_answered s && not p))) panics
            ∙ ap (λ b. shown (bit (both_answered s && b)))
                (not-not (labels_of_counts valid s s.counts)),
      )
