-- ===== src/LogParser/Batch/Events.antt =====
-- The addresses that the metrics show, over passes, scrapes and cleanups in any order.
use mathlib.Core.Option.{some-injective}
use xray_exporter.Common.{
  ℕ, ◌-◌, ◌≡◌, refl, sym, subst, ◌∙◌, inl, inr, true, Option, none, some, List, [], ◌∷◌, Bool-cases,
}
use xray_exporter.Common.Sort.{Sorting}
use xray_exporter.Text.{Text}
use xray_exporter.GoMap.{lookup}
use xray_exporter.LogParser.Ring.{Time}
use xray_exporter.LogParser.Counts.{
  CountMaps, more_often, trim_to_top_n, check_emergency_cleanup, need_cleanup,
}
use xray_exporter.LogParser.Metrics.{MetricsData, new_metrics}
use xray_exporter.LogParser.Metrics.Activity.{merge_delta-keep_last, get_metrics-IsCleaned}
use xray_exporter.LogParser.Counts.Bounds.{IsMaps}
use xray_exporter.LogParser.Metrics.Run.{
  Operation, merge, scrape, trim, check, IsSound, operate, operate-IsSound, new_metrics-IsSound,
  lookup-select-none,
}
use xray_exporter.LogParser.Follow.{Position, LogFile, parse_log_file}
use xray_exporter.LogParser.Batch.{Setting, pass, new_delta, process_lines}
use xray_exporter.LogParser.Batch.Shown.{
  Without, keep_top_n-Without, merge_counts-Without, merge_ips-Without, process_lines-IsBatch,
}

-- A pass over the log, a scrape, a trim of the cleanup ticker, and the check after a pass.
pub data Event : Type 0 where
  passed : LogFile → Time → Event
  scraped : Time → Event
  trimmed checked : Event

abbrev on_metrics : Position → Option MetricsData → Option (Position × MetricsData)
on_metrics p none = none
on_metrics p (some m) = some (p, m)

module _ (sorting : Sorting more_often) (s : Setting) (time_window : ℕ) where
  run_event : Event → Position × MetricsData → Option (Position × MetricsData)
  run_event (passed file now) state = pass s time_window now file state
  run_event (scraped now) (p, m) = on_metrics p (operate sorting time_window (scrape now) m)
  run_event trimmed (p, m) = on_metrics p (operate sorting time_window trim m)
  run_event checked (p, m) = on_metrics p (operate sorting time_window check m)

  unfoldable pub run_events : List Event → Position × MetricsData → Option (Position × MetricsData)
  unfolding run_event
  run_events [] state = some state
  run_events (e ∷ es) state = elim (run_event e state) [
    | none ↦ none
    | some state' ↦ run_events es state'
  ]

  -- No filtered address is shown.
  record IsShown (m : MetricsData) : Type 0 where
    pub users : Without s.should_filter m.unique_ips
    pub targets : Without s.should_filter m.counts.ips
    pub sound : IsSound m

  trim_to_top_n-Without :
      (m : CountMaps)
      → IsMaps m
      → Without s.should_filter m.ips
      → Without s.should_filter (trim_to_top_n sorting m).ips
  unfolding trim_to_top_n
  trim_to_top_n-Without m v w = keep_top_n-Without s.should_filter sorting m.ips 20 v.ips w

  check-Without :
      (m : CountMaps)
      → IsMaps m
      → Without s.should_filter m.ips
      → Without s.should_filter (check_emergency_cleanup sorting m).ips
  unfolding check_emergency_cleanup
  check-Without m v w = elim (Bool-cases (need_cleanup m)) [
    | inl e ↦ rw e (trim_to_top_n-Without m v w)
    | inr e ↦ rw e w
  ]

  operated :
      (o : Operation) (m m' : MetricsData)
      → IsSound m
      → operate sorting time_window o m ≡ some m'
      → IsSound m'
  operated o m m' v run =
      let (other, same, sound) = operate-IsSound sorting time_window o m v in
      subst IsSound (some-injective other m' (sym same ∙ run)) sound

  run_event-IsShown :
      (e : Event) (p : Position) (m : MetricsData)
      → IsShown m
      → (p' : Position) × (m' : MetricsData) × (run_event e (p, m) ≡ some (p', m')) × IsShown m'
  unfolding run_event operate pass lookup
  run_event-IsShown (passed file now) p m v =
      let lines = (parse_log_file file p).1 in
      let delta = process_lines s (now - time_window) new_delta lines in
      let batch =
        process_lines-IsBatch s (now - time_window) new_delta lines
          (record { users = λ k f. refl; targets = λ k f. refl }) in
      let (m', run, ring, kept, counts, ips) = merge_delta-keep_last delta m v.sound.ring in
      (
        (parse_log_file file p).0,
        m',
        rw (pass, run) refl,
        record {
          users =
              rw ips (
                merge_ips-Without s.should_filter m.unique_ips delta.unique_ips v.users
                  batch.users);
          targets = rw counts (
              merge_counts-Without s.should_filter m.counts.ips delta.counts.ips v.targets
                batch.targets);
          sound = operated (merge delta) m m' v.sound run;
        },
      )
  run_event-IsShown (scraped now) p m v =
      let (m', run, clean) = get_metrics-IsCleaned time_window now m v.sound.ring v.sound.ips in
      let scraping : operate sorting time_window (scrape now) m ≡ some m' =
        rw (operate, run) refl in
      (
        p,
        m',
        rw (run_event, scraping) refl,
        record {
          users = rw (clean.ips) (λ k f. lookup-select-none _ k m.unique_ips (v.users k f));
          targets = rw (clean.counts) v.targets;
          sound = operated (scrape now) m m' v.sound scraping;
        },
      )
  run_event-IsShown trimmed p m v =
      let m' = record m { counts = trim_to_top_n sorting m.counts } in
      (
        p,
        m',
        refl,
        record {
          users = v.users;
          targets = trim_to_top_n-Without m.counts v.sound.maps v.targets;
          sound = operated trim m m' v.sound refl;
        },
      )
  run_event-IsShown checked p m v =
      let m' = record m { counts = check_emergency_cleanup sorting m.counts } in
      (
        p,
        m',
        refl,
        record {
          users = v.users;
          targets = check-Without m.counts v.sound.maps v.targets;
          sound = operated check m m' v.sound refl;
        },
      )

  run_events-IsShown :
      (es : List Event) (p : Position) (m : MetricsData)
      → IsShown m
      → (p' : Position) × (m' : MetricsData) × (run_events es (p, m) ≡ some (p', m')) × IsShown m'
  unfolding run_events
  run_events-IsShown [] p m v = (p, m, refl, v)
  run_events-IsShown (e ∷ es) p m v =
      let (p1, m1, run, v1) = run_event-IsShown e p m v in
      let (p', m', runs, v') = run_events-IsShown es p1 m1 v1 in
      (p', m', rw (run_events, run) runs, v')

  -- From a new parser on, over any sequence of passes over the log, scrapes, trims and checks: nothing
  -- panics, and no address that `ShouldFilter` answers true for is shown, neither among the users nor
  -- among the requested addresses.
  pub filtered_hidden :
      (events : List Event)
      → (p : Position) × (m : MetricsData) × (run_events events
            (record { last_pos = 0; last_inode = 0 }, new_metrics time_window)
          ≡ some (p, m))
        × ((ip : Text)
            → s.should_filter ip ≡ true
            → (lookup ip m.unique_ips ≡ none) × (lookup ip m.counts.ips ≡ none))
  unfolding new_metrics lookup
  filtered_hidden events =
      let (p, m, run, v) =
        run_events-IsShown events (record { last_pos = 0; last_inode = 0 })
          (new_metrics time_window)
          (record {
            users = λ k f. refl;
            targets = λ k f. refl;
            sound = new_metrics-IsSound sorting time_window;
          }) in
      (p, m, run, λ ip f. (v.users ip f, v.targets ip f))
