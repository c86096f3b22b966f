-- ===== src/Exporter/Metrics/Accepted.antt =====
-- Metrics whose labels are UTF-8 and as many as their description has names are sent.
use xray_exporter.Common.{
  ℕ, ◌≡◌, refl, ap, ap₂, ◌∙◌, Bool, true, false, ◌&&◌, List, [], ◌∷◌, ◌++◌, map, All, length,
  if◌then◌else◌,
}
use xray_exporter.Common.Float64.{Float64, float_of_int64}
use xray_exporter.Text.{Text, codes, text_eq, split}
use xray_exporter.GoMap.{lookup}
use xray_exporter.GoMap.Keys.{has_text}
use xray_exporter.LogParser.Counts.{CountEntry}
use xray_exporter.Exporter.Metrics.{
  Metric, Stat, NewConstMetric, labels_of, register, metric_name, scrape_parts, scrape_xray_metrics,
  separator, counted, registered, two_labels,
}

-- The names of the metrics that the program writes out.
abbrev pub own_names : List Text
own_names =
    codes "up"
    ∷ codes "scrape_duration_seconds"
    ∷ codes "uptime_seconds"
    ∷ codes "goroutines"
    ∷ codes "memstats_alloc_bytes"
    ∷ codes "memstats_alloc_bytes_total"
    ∷ codes "memstats_sys_bytes"
    ∷ codes "memstats_mallocs_total"
    ∷ codes "memstats_frees_total"
    ∷ codes "memstats_num_gc"
    ∷ codes "memstats_pause_total_ns"
    ∷ codes "traffic_uplink_bytes_total"
    ∷ codes "traffic_downlink_bytes_total"
    ∷ codes "unique_users"
    ∷ codes "total_connections"
    ∷ codes "requested_domain_ip_total"
    ∷ codes "outbound_requests_total"
    ∷ codes "asns_total"
    ∷ codes "countries_total"
    ∷ codes "cities_total"
    ∷ []

abbrev pub Utf8 : (Text → Bool) → List Text → Type 0
Utf8 valid = All (λ l. valid l ≡ true)

-- What client_golang documents, for the names above: as many label values as label names, all of
-- them UTF-8, are accepted.
abbrev pub AcceptsMatching : (Text → Bool) → NewConstMetric → Type 0
AcceptsMatching valid accepts =
    (name : Text) (labels values : List Text)
    → has_text name own_names ≡ true
    → length labels ≡ length values
    → Utf8 valid values
    → accepts name labels values ≡ true

-- The labels of a map's exported keys are UTF-8.
abbrev pub Utf8Keys : (Text → Bool) → (Text → List Text) → List CountEntry → Type 0
Utf8Keys valid labels = All (λ (e : CountEntry). Utf8 valid (labels e.0))

abbrev pub one_label : Text → List Text
one_label k = k ∷ []

-- The labels of a key `a|b`.
abbrev pub pair_of : Text → List Text
pair_of k = two_labels (split (codes "|") k)

abbrev pub gauge : Text × Float64 → Metric
gauge (name, value) = record { name = name; value = value; labels = [] }

abbrev pub series : Text → (Text → List Text) → CountEntry → Metric
series name labels (k, c) = record { name = name; value = float_of_int64 c; labels = labels k }

and_false : (b : Bool) → b && false ≡ false
and_false true = refl
and_false false = refl

-- A statistic of traffic: `dimension>>>target>>>traffic>>>uplink`, or downlink.
pub record Traffic : Type 0 where
  pub dimension : Text
  pub target : Text
  pub is_uplink : Bool
  pub bytes : ℕ

abbrev direction_of : Bool → Text
direction_of b = if b then codes "uplink" else codes "downlink"

abbrev parts_of : Traffic → List Text
parts_of t = t.dimension ∷ t.target ∷ codes "traffic" ∷ direction_of t.is_uplink ∷ []

abbrev pub stat_of : Traffic → Stat
stat_of t = record {
  name =
      t.dimension
      ++ separator
      ++ t.target
      ++ separator
      ++ codes "traffic"
      ++ separator
      ++ direction_of t.is_uplink;
  value = t.bytes;
}

abbrev pub traffic_metric : Traffic → Metric
traffic_metric t = record {
  name = codes "traffic_" ++ direction_of t.is_uplink ++ codes "_bytes_total";
  value = float_of_int64 t.bytes;
  labels = t.dimension ∷ t.target ∷ [];
}

-- The name of the statistic is read back as its parts, which are UTF-8.
abbrev pub IsPlain : (Text → Bool) → Traffic → Type 0
IsPlain valid t =
    (split separator (stat_of t).name ≡ parts_of t)
    × (valid t.dimension ≡ true)
    × (valid t.target ≡ true)

pub length-two_labels : (parts : List Text) → length (two_labels parts) ≡ 2
unfolding two_labels
length-two_labels [] = refl
length-two_labels (a ∷ []) = refl
length-two_labels (a ∷ b ∷ parts) = refl

module _ (valid : Text → Bool) (accepts : NewConstMetric)
    (law : AcceptsMatching valid accepts) where
  pub register-sent :
      (name : Text) (value : Float64) (labels : List Text)
      → has_text name own_names ≡ true
      → length (labels_of name) ≡ length labels
      → Utf8 valid labels
      → register accepts name value labels
        ≡ record { name = name; value = value; labels = labels } ∷ []
  unfolding register
  register-sent name value labels own same utf8 =
      rw (law name (labels_of name) labels own same utf8) refl

  pub counted-sent :
      (name label : Text) (entries : List CountEntry)
      → has_text name own_names ≡ true
      → Utf8Keys valid one_label entries
      → counted accepts name label entries ≡ (map (series name one_label) entries, false)
  unfolding counted
  counted-sent name label [] own h = refl
  counted-sent name label ((k, c) ∷ entries) own h =
      rw (law name (label ∷ []) (k ∷ []) own refl h.0, counted-sent name label entries own h.1) refl

  pub registered-sent :
      (name : Text) (labels : Text → List Text) (entries : List CountEntry)
      → has_text name own_names ≡ true
      → ((k : Text) → length (labels_of name) ≡ length (labels k))
      → Utf8Keys valid labels entries
      → registered accepts name labels entries ≡ map (series name labels) entries
  unfolding registered
  registered-sent name labels [] own same h = refl
  registered-sent name labels ((k, c) ∷ entries) own same h =
      ap₂ ◌++◌ (register-sent name (float_of_int64 c) (labels k) own (same k) h.0)
        (registered-sent name labels entries own same h.1)

  parts-sent :
      (dimension target : Text) (b : Bool) (bytes : ℕ)
      → valid dimension ≡ true
      → valid target ≡ true
      → let t : Traffic = record {
        dimension = dimension;
        target = target;
        is_uplink = b;
        bytes = bytes;
      } in
        scrape_parts accepts true bytes (parts_of t) ≡ traffic_metric t ∷ []
  unfolding scrape_parts labels_of lookup text_eq
  parts-sent dimension target true bytes d h = rw (and_false (text_eq dimension (codes "user"))) (
      register-sent (metric_name (codes "traffic") (codes "uplink")) (float_of_int64 bytes)
        (dimension ∷ target ∷ []) refl refl (d, (h, tt)))
  parts-sent dimension target false bytes d h = rw (and_false (text_eq dimension (codes "user"))) (
      register-sent (metric_name (codes "traffic") (codes "downlink")) (float_of_int64 bytes)
        (dimension ∷ target ∷ []) refl refl (d, (h, tt)))

  pub traffics-sent :
      (traffics : List Traffic)
      → All (IsPlain valid) traffics
      → scrape_xray_metrics accepts true (map stat_of traffics) ≡ map traffic_metric traffics
  unfolding scrape_xray_metrics
  traffics-sent [] h = refl
  traffics-sent (t ∷ traffics) h =
      let (plain, dimension, target) = h.0 in
      ap₂ ◌++◌
        (ap (scrape_parts accepts true t.bytes) plain
          ∙ parts-sent t.dimension t.target t.is_uplink t.bytes dimension target)
        (traffics-sent traffics h.1)
