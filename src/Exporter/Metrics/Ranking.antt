-- ===== src/Exporter/Metrics/Ranking.antt =====
-- The rankings that bound how many series are exported.
use xray_exporter.Common.{
  ◌+◌, true, false, ℕ, zero, suc, ◌≤◌, ◌≡◌, refl, ap, Option, none, some, List, [], ◌∷◌, arith, min,
  length, take, drop, length-append, length-take,
}
use xray_exporter.Common.Sort.{Sorting}
use xray_exporter.Text.{Text}
use xray_exporter.LogParser.Counts.{
  Counts, CountEntry, CountMaps, more_often, max_tracked_domains, max_tracked_ips,
  max_tracked_outbounds, max_tracked_asns, max_tracked_countries, max_tracked_cities,
}
use xray_exporter.LogParser.Counts.Top.{IsTop, take-IsTop}
use xray_exporter.Exporter.Metrics.{
  NewConstMetric, register, top_n, Sent, counted, then_send, registered, collect_domain_metrics,
  collect_outbound_metrics, collect_asn_metrics, collect_country_metrics, collect_city_metrics,
}

take-min_of {ℓ} :
    {A : Type ℓ} (k n : ℕ) (xs : List A) → k ≡ min n (length xs) → take k xs ≡ take n xs
take-min_of zero zero xs h = refl
take-min_of zero (suc n) [] h = refl
take-min_of zero (suc n) (x ∷ xs) h = absurd (omega arith)
take-min_of (suc k) zero xs h = absurd (omega arith)
take-min_of (suc k) (suc n) [] h = absurd (omega arith)
take-min_of (suc k) (suc n) (x ∷ xs) h = ap (◌∷◌ x) (take-min_of k n xs (omega arith))

-- `topN` gives the `n` entries with the highest counts, or all where there are fewer.
pub top_n-IsTop :
    (sorting : Sorting more_often) (counts : Counts) (n : ℕ)
    → (rest : List CountEntry) × IsTop counts n (top_n sorting counts n) rest
unfolding top_n
top_n-IsTop sorting counts n = (
  drop n (sorting.sort counts),
  rw (take-min_of (min n (length (sorting.sort counts))) n (sorting.sort counts) refl)
      (take-IsTop sorting counts n),
)

length-top_n :
    (sorting : Sorting more_often) (counts : Counts) (n : ℕ) → length (top_n sorting counts n) ≤ n
unfolding top_n
length-top_n sorting counts n =
    let xs = sorting.sort counts in omega (arith, length-take (min n (length xs)) xs)

length-counted :
    (accepts : NewConstMetric) (name label : Text) (es : List CountEntry)
    → length (counted accepts name label es).0 ≤ length es
unfolding counted
length-counted accepts name label [] = omega arith
length-counted accepts name label ((k, c) ∷ es) =
    ground (arith, length-counted accepts name label es)

length-counted_le :
    (accepts : NewConstMetric) (sorting : Sorting more_often) (name label : Text) (counts : Counts)
    (n : ℕ)
    → length (counted accepts name label (top_n sorting counts n)).0 ≤ n
length-counted_le accepts sorting name label counts n = omega (
  arith,
  length-counted accepts name label (top_n sorting counts n),
  length-top_n sorting counts n,
)

length-then_send :
    (a b : Sent) (n m : ℕ) → length a.0 ≤ n → length b.0 ≤ m → length (then_send a b).0 ≤ n + m
unfolding then_send
length-then_send (xs, true) b n m h k = omega arith
length-then_send (xs, false) b n m h k = omega (arith, length-append xs b.0)

length-registered :
    (accepts : NewConstMetric) (name : Text) (labels : Text → List Text) (es : List CountEntry)
    → length (registered accepts name labels es) ≤ length es
unfolding registered register
length-registered accepts name labels [] = omega arith
length-registered accepts name labels ((k, c) ∷ es) =
    ground (arith, length-registered accepts name labels es)

length-registered_le :
    (accepts : NewConstMetric) (sorting : Sorting more_often) (name : Text)
    (labels : Text → List Text) (counts : Counts) (n : ℕ)
    → length (registered accepts name labels (top_n sorting counts n)) ≤ n
length-registered_le accepts sorting name labels counts n = omega (
  arith,
  length-registered accepts name labels (top_n sorting counts n),
  length-top_n sorting counts n,
)

-- However many targets the log names, one collection exports at most 40 series of domains and
-- addresses together, 10 of outbounds, and 20 each of ASNs, countries and cities.
pub collect-le :
    (accepts : NewConstMetric) (sorting : Sorting more_often) (maps : Option CountMaps)
    → (length (collect_domain_metrics accepts sorting maps).0 ≤ 40)
      × (length (collect_outbound_metrics accepts sorting maps).0 ≤ 10)
      × (length (collect_asn_metrics accepts sorting maps) ≤ 20)
      × (length (collect_country_metrics accepts sorting maps) ≤ 20)
      × (length (collect_city_metrics accepts sorting maps) ≤ 20)
unfolding collect_domain_metrics collect_outbound_metrics collect_asn_metrics
    collect_country_metrics collect_city_metrics
collect-le accepts sorting none = (omega arith, omega arith, omega arith, omega arith, omega arith)
collect-le accepts sorting (some m) = (
  length-then_send _ _ 20 20 (length-counted_le accepts sorting _ _ m.domains max_tracked_domains)
      (length-counted_le accepts sorting _ _ m.ips max_tracked_ips),
  length-counted_le accepts sorting _ _ m.outbounds max_tracked_outbounds,
  length-registered_le accepts sorting _ _ m.asns max_tracked_asns,
  length-registered_le accepts sorting _ _ m.countries max_tracked_countries,
  length-registered_le accepts sorting _ _ m.cities max_tracked_cities,
)
