-- ===== src/LogParser/Metrics/Run.antt =====
-- Any sequence of the parser's operations on its metrics: the lock makes each of them one step.
use xray_exporter.Common.{
  ℕ, ◌≡◌, refl, inl, inr, Bool, Option, none, some, List, [], ◌∷◌, arith, select, Bool-cases,
}
use xray_exporter.Common.Sort.{Sorting}
use xray_exporter.Text.{Text}
use xray_exporter.GoMap.{GoMap, lookup, insert, Distinct, insert-Distinct}
use xray_exporter.LogParser.Ring.{Time}
use xray_exporter.LogParser.Ring.Window.{IsRing}
use xray_exporter.LogParser.Counts.{
  CountMaps, more_often, trim_to_top_n, check_emergency_cleanup, need_cleanup,
}
use xray_exporter.LogParser.Counts.Merge.{merge_counts-Distinct}
use xray_exporter.LogParser.Counts.Top.{keep_top_n-Distinct}
use xray_exporter.LogParser.Counts.Bounds.{IsMaps}
use xray_exporter.LogParser.Metrics.{
  MetricsData, MetricsDelta, new_metrics, merge_delta, merge_ips, merge_all_counts, get_metrics,
}
use xray_exporter.LogParser.Metrics.Activity.{
  new_metrics-IsRing, merge_delta-keep_last, get_metrics-IsCleaned,
}

-- A merge of a batch, a scrape at a time, a trim of the cleanup ticker, and the check after a pass.
pub data Operation : Type 0 where
  merge : MetricsDelta → Operation
  scrape : Time → Operation
  trim check : Operation

module _ (sorting : Sorting more_often) (time_window : ℕ) where
  unfoldable pub operate : Operation → MetricsData → Option MetricsData
  operate (merge d) m = merge_delta d m
  operate (scrape now) m = elim (get_metrics time_window now m) [
    | none ↦ none
    | some (m', numbers) ↦ some m'
  ]
  operate trim m = some (record m { counts = trim_to_top_n sorting m.counts })
  operate check m = some (record m { counts = check_emergency_cleanup sorting m.counts })

  unfoldable pub run : List Operation → MetricsData → Option MetricsData
  unfolding operate
  run [] m = some m
  run (o ∷ os) m = elim (operate o m) [ none ↦ none | some m' ↦ run os m' ]

-- The buffer is well formed and no map has two entries for a key.
pub record IsSound (m : MetricsData) : Type 0 where
  pub ring : IsRing m.connections
  pub ips : Distinct m.unique_ips
  pub maps : IsMaps m.counts

merge_ips-Distinct : (m d : GoMap Time) → Distinct m → Distinct (merge_ips m d)
unfolding merge_ips
merge_ips-Distinct m [] u = u
merge_ips-Distinct m ((k, t) ∷ d) u = merge_ips-Distinct (insert k t m) d (insert-Distinct k t m u)

pub lookup-select-none :
    (p : Text × Time → Bool) (k : Text) (m : GoMap Time)
    → lookup k m ≡ none
    → lookup k (select p m) ≡ none
unfolding lookup
lookup-select-none p k [] h = refl
lookup-select-none p k (e ∷ m) h = ground (arith, lookup-select-none p k m)

Distinct-select : (p : Text × Time → Bool) (m : GoMap Time) → Distinct m → Distinct (select p m)
Distinct-select p [] d = tt
Distinct-select p ((k, t) ∷ m) d = elim (Bool-cases (p (k, t))) [
  | inl e ↦ rw e (lookup-select-none p k m d.0, Distinct-select p m d.1)
  | inr e ↦ rw e (Distinct-select p m d.1)
]

merge_all_counts-IsMaps : (m d : CountMaps) → IsMaps m → IsMaps (merge_all_counts m d)
merge_all_counts-IsMaps m d v = record {
  domains = merge_counts-Distinct m.domains d.domains v.domains;
  ips = merge_counts-Distinct m.ips d.ips v.ips;
  outbounds = merge_counts-Distinct m.outbounds d.outbounds v.outbounds;
  asns = merge_counts-Distinct m.asns d.asns v.asns;
  countries = merge_counts-Distinct m.countries d.countries v.countries;
  cities = merge_counts-Distinct m.cities d.cities v.cities;
}

module _ (sorting : Sorting more_often) where
  trim_to_top_n-IsMaps : (m : CountMaps) → IsMaps m → IsMaps (trim_to_top_n sorting m)
  unfolding trim_to_top_n
  trim_to_top_n-IsMaps m v = record {
    domains = keep_top_n-Distinct sorting m.domains 20 v.domains;
    ips = keep_top_n-Distinct sorting m.ips 20 v.ips;
    outbounds = keep_top_n-Distinct sorting m.outbounds 10 v.outbounds;
    asns = keep_top_n-Distinct sorting m.asns 20 v.asns;
    countries = keep_top_n-Distinct sorting m.countries 20 v.countries;
    cities = keep_top_n-Distinct sorting m.cities 20 v.cities;
  }

  check_emergency_cleanup-IsMaps :
      (m : CountMaps) → IsMaps m → IsMaps (check_emergency_cleanup sorting m)
  unfolding check_emergency_cleanup
  check_emergency_cleanup-IsMaps m v = elim (Bool-cases (need_cleanup m)) [
    | inl e ↦ rw e (trim_to_top_n-IsMaps m v)
    | inr e ↦ rw e v
  ]

  module _ (time_window : ℕ) where
    pub operate-IsSound :
        (o : Operation) (m : MetricsData)
        → IsSound m
        → (m' : MetricsData) × (operate sorting time_window o m ≡ some m') × IsSound m'
    unfolding operate
    operate-IsSound (merge d) m v =
        let (m', e, ring, kept, counts, ips) = merge_delta-keep_last d m v.ring in
        (
          m',
          e,
          record {
            ring = ring;
            ips = rw ips (merge_ips-Distinct m.unique_ips d.unique_ips v.ips);
            maps = rw counts (merge_all_counts-IsMaps m.counts d.counts v.maps);
          },
        )
    operate-IsSound (scrape now) m v =
        let (m', e, clean) = get_metrics-IsCleaned time_window now m v.ring v.ips in
        (
          m',
          rw (operate, e) refl,
          record {
            ring = clean.sound;
            ips = rw (clean.ips) (Distinct-select _ m.unique_ips v.ips);
            maps = rw (clean.counts) v.maps;
          },
        )
    operate-IsSound trim m v = (
      record m { counts = trim_to_top_n sorting m.counts },
      refl,
      record { ring = v.ring; ips = v.ips; maps = trim_to_top_n-IsMaps m.counts v.maps },
    )
    operate-IsSound check m v = (
      record m { counts = check_emergency_cleanup sorting m.counts },
      refl,
      record { ring = v.ring; ips = v.ips; maps = check_emergency_cleanup-IsMaps m.counts v.maps },
    )

    run-IsSound_from :
        (os : List Operation) (m : MetricsData)
        → IsSound m
        → (m' : MetricsData) × (run sorting time_window os m ≡ some m') × IsSound m'
    unfolding run
    run-IsSound_from [] m v = (m, refl, v)
    run-IsSound_from (o ∷ os) m v =
        let (m1, e, v1) = operate-IsSound o m v in
        let (m', run_on, v') = run-IsSound_from os m1 v1 in (m', rw (run, e) run_on, v')

    pub new_metrics-IsSound : IsSound (new_metrics time_window)
    unfolding new_metrics
    new_metrics-IsSound = record {
      ring = (new_metrics-IsRing time_window).0;
      ips = tt;
      maps = record {
        domains = tt;
        ips = tt;
        outbounds = tt;
        asns = tt;
        countries = tt;
        cities = tt;
      };
    }

    -- From a new parser, no sequence of merged batches, scrapes, trims and checks panics, and after
    -- any of them the buffer is well formed and no map has two entries for a key.
    pub run-IsSound :
        (os : List Operation)
        → (m' : MetricsData) × (run sorting time_window os (new_metrics time_window) ≡ some m')
          × IsSound m'
    run-IsSound os = run-IsSound_from os (new_metrics time_window) new_metrics-IsSound
