-- ===== src/Exporter/Metrics/Billing.antt =====
-- The billed counters against the metrics of the same statistics.
use mathlib.Core.List.{map-append}
use xray_exporter.Common.{
  ℕ, ◌≡◌, refl, ap₂, inl, inr, Bool, true, false, List, [], ◌∷◌, ◌++◌, map, All, select,
  select-append, Bool-cases,
}
use xray_exporter.Common.Float64.{Float64, float_of_int64}
use xray_exporter.Text.{Text, codes, text_eq, split}
use xray_exporter.Snapshot.Types.{RawCounter}
use xray_exporter.Exporter.Metrics.{
  Metric, Stat, NewConstMetric, labels_of, register, metric_name, separator, scrape_parts,
  counter_parts, scrape_xray_metrics, traffic_counters,
}

abbrev pub user : Text
user = codes "user"

-- Who a counter is about, and its value as a metric has it.
abbrev pub billed : RawCounter → Text × Float64
billed c = (c.identifier, float_of_int64 c.value)

-- Who a metric is about, by its second label, and its value.
abbrev pub target : Metric → Text × Float64
target m = elim m.labels [
  | [] ↦ ([], m.value)
  | _ ∷ ls ↦ elim ls [ [] ↦ ([], m.value) | t ∷ _ ↦ (t, m.value) ]
]

abbrev pub is_user : Metric → Bool
is_user m = elim m.labels [ [] ↦ false | d ∷ _ ↦ text_eq d user ]

-- The metric of these parts of a name is accepted, if it is one of a user.
abbrev pub IsAccepted : NewConstMetric → List Text → Type 0
IsAccepted accepts (p0 ∷ p1 ∷ p2 ∷ p3 ∷ _) =
    text_eq p0 user ≡ true
    → accepts (metric_name p2 p3) (labels_of (metric_name p2 p3)) (p0 ∷ p1 ∷ []) ≡ true
IsAccepted accepts _ = Unit

billed-parts :
    (accepts : NewConstMetric) (u : Bool) (v : ℕ) (ps : List Text)
    → IsAccepted accepts ps
    → map billed (counter_parts u v ps) ≡ map target (select is_user (scrape_parts accepts u v ps))
unfolding counter_parts scrape_parts register
billed-parts accepts u v [] h = refl
billed-parts accepts u v (p0 ∷ []) h = refl
billed-parts accepts u v (p0 ∷ p1 ∷ []) h = refl
billed-parts accepts u v (p0 ∷ p1 ∷ p2 ∷ []) h = refl
billed-parts accepts u v (p0 ∷ p1 ∷ p2 ∷ p3 ∷ ps) h = elim (Bool-cases (text_eq p0 user)) [
  | inl e ↦ elim (Bool-cases u) [ inl on ↦ rw (e, on, h e, e) refl | inr off ↦ rw (e, off) refl ]
  | inr e ↦
      elim (Bool-cases
        (accepts (metric_name p2 p3) (labels_of (metric_name p2 p3)) (p0 ∷ p1 ∷ []))) [
          | inl a ↦ rw (e, a, e) refl
          | inr a ↦ rw (e, a) refl
        ]
]

counter_parts-off : (u : Bool) (v : ℕ) (ps : List Text) → u ≡ false → counter_parts u v ps ≡ []
unfolding counter_parts
counter_parts-off u v [] off = refl
counter_parts-off u v (p0 ∷ []) off = refl
counter_parts-off u v (p0 ∷ p1 ∷ []) off = refl
counter_parts-off u v (p0 ∷ p1 ∷ p2 ∷ []) off = refl
counter_parts-off u v (p0 ∷ p1 ∷ p2 ∷ p3 ∷ ps) off = elim (Bool-cases (text_eq p0 user)) [
  | inl e ↦ rw (e, off) refl
  | inr e ↦ rw e refl
]

-- Where every metric of a user is accepted, the billed counters are, in order, the scraped metrics of
-- users with their targets, and each metric's value is the float64 of its counter's int64; with the
-- user metrics off there is no billed counter.
pub traffic_counters-scraped :
    (accepts : NewConstMetric) (user_traffic : Bool) (stats : List Stat)
    → All (λ (s : Stat). IsAccepted accepts (split separator s.name)) stats
    → (map billed (traffic_counters user_traffic stats)
        ≡ map target (select is_user (scrape_xray_metrics accepts user_traffic stats)))
      × (user_traffic ≡ false → traffic_counters user_traffic stats ≡ [])
unfolding traffic_counters scrape_xray_metrics
traffic_counters-scraped accepts u [] h = (refl, λ off. refl)
traffic_counters-scraped accepts u (s ∷ stats) h =
    let ps = split separator s.name in
    let here = billed-parts accepts u s.value ps h.0 in
    let rest = traffic_counters-scraped accepts u stats h.1 in
    let first = scrape_parts accepts u s.value ps in
    (
      rw (select-append is_user first (scrape_xray_metrics accepts u stats), map-append, map-append)
          (ap₂ ◌++◌ here rest.0),
      λ off. rw (counter_parts-off u s.value ps off) (rest.1 off),
    )
