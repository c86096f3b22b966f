-- ===== src/LogParser/Loop/Core.antt =====
-- The loop without the users and connections of the time window: what it counts and where it stands.
use mathlib.Core.Option.{some-injective}
use xray_exporter.Common.{
  ℕ, ◌-◌, ◌≡◌, refl, sym, subst, ap, ◌∙◌, inl, inr, Bool, some, List, [], ◌∷◌, map, if◌then◌else◌,
  Bool-cases,
}
use xray_exporter.Common.Sort.{Sorting}
use xray_exporter.Text.{Text}
use xray_exporter.LogParser.Ring.{Time}
use xray_exporter.LogParser.Counts.{CountMaps, more_often, trim_to_top_n, check_emergency_cleanup}
use xray_exporter.LogParser.Metrics.{MetricsData, merge_all_counts, no_counts}
use xray_exporter.LogParser.Metrics.Activity.{merge_delta-keep_last, get_metrics-IsCleaned}
use xray_exporter.LogParser.Metrics.Run.{
  merge, scrape, trim, check, IsSound, operate, operate-IsSound,
}
use xray_exporter.LogParser.Follow.{Position, LogFile, parse_log_file}
use xray_exporter.LogParser.Batch.{Setting, pass, process_lines, new_delta}
use xray_exporter.LogParser.Batch.Counted.{line_names, count_all_maps, process_lines-names}
use xray_exporter.LogParser.Loop.{
  Phase, waiting, checking, returned, Parser, Event, done, cleanup_ticked, checked, stop_called,
  ticked, scraped, react, parse_loop,
}

pub record Core : Type 0 where
  pub log_path : Text
  pub time_window : ℕ
  pub setting : Setting
  pub position : Position
  pub counts : CountMaps
  pub cancelled : Bool
  pub phase : Phase

abbrev pub core : Parser → Core
core p = record {
  log_path = p.log_path;
  time_window = p.time_window;
  setting = p.setting;
  position = p.position;
  counts = p.metrics.counts;
  cancelled = p.cancelled;
  phase = p.phase;
}

-- The counts after one more count for each name of the lines.
abbrev pub counted : Setting → Time → List Text → CountMaps → CountMaps
counted s cutoff lines m =
    merge_all_counts m (count_all_maps (map (line_names s cutoff) lines) no_counts)

module _ (sorting : Sorting more_often) where
  unfoldable pub core_react : Phase → Event → Core → Core
  core_react phase stop_called c = record c { cancelled = Bool.true }
  core_react phase (scraped now) c = c
  core_react waiting done c = if c.cancelled then record c { phase = returned } else c
  core_react waiting cleanup_ticked c = record c { counts = trim_to_top_n sorting c.counts }
  core_react waiting (ticked disk now) c =
      let (next, lines) = parse_log_file (disk c.log_path) c.position in
      record c {
        position = next;
        counts = counted c.setting (now - c.time_window) lines c.counts;
        phase = checking;
      }
  core_react checking checked c = record c {
    counts = check_emergency_cleanup sorting c.counts;
    phase = waiting;
  }
  core_react phase e c = c

  unfoldable pub core_run : List Event → Core → Core
  core_run [] c = c
  core_run (e ∷ es) c = core_run es (core_react c.phase e c)

  -- What a pass does to sound metrics.
  pass-counted :
      (s : Setting) (w : ℕ) (now : Time) (file : LogFile) (position : Position) (m : MetricsData)
      → IsSound m
      → (m' : MetricsData) × (pass s w now file (position, m)
          ≡ some ((parse_log_file file position).0, m'))
        × IsSound m'
        × (m'.counts ≡ counted s (now - w) (parse_log_file file position).1 m.counts)
  unfolding pass operate
  pass-counted s w now file position m v =
      let lines = (parse_log_file file position).1 in
      let delta = process_lines s (now - w) new_delta lines in
      let (m', run, ring, kept, counts, ips) = merge_delta-keep_last delta m v.ring in
      let (other, same, sound) = operate-IsSound sorting w (merge delta) m v in
      (
        m',
        rw (pass, run) refl,
        subst IsSound (some-injective other m' (sym same ∙ run)) sound,
        counts ∙ ap (merge_all_counts m.counts) (process_lines-names s (now - w) new_delta lines).0,
      )

  react-core :
      (phase : Phase) (e : Event) (p : Parser)
      → IsSound p.metrics
      → (p' : Parser) × (react sorting phase e p ≡ some p')
        × IsSound p'.metrics
        × (core p' ≡ core_react phase e (core p))
  unfolding react core_react operate
  react-core phase stop_called p v = (record p { cancelled = Bool.true }, refl, v, refl)
  react-core phase (scraped now) p v =
      let (m', run, clean) = get_metrics-IsCleaned p.time_window now p.metrics v.ring v.ips in
      let scraping : operate sorting p.time_window (scrape now) p.metrics ≡ some m' =
        rw (operate, run) refl in
      let (other, same, sound) = operate-IsSound sorting p.time_window (scrape now) p.metrics v in
      (
        record p { metrics = m' },
        rw (react, scraping) refl,
        subst IsSound (some-injective other m' (sym same ∙ scraping)) sound,
        rw (clean.counts) refl,
      )
  react-core waiting done p v = elim (Bool-cases p.cancelled) [
    | inl e ↦ (record p { phase = returned }, rw e refl, v, rw e refl)
    | inr e ↦ (p, rw e refl, v, rw e refl)
  ]
  react-core waiting cleanup_ticked p v =
      let m = record p.metrics { counts = trim_to_top_n sorting p.metrics.counts } in
      let (other, same, sound) = operate-IsSound sorting p.time_window trim p.metrics v in
      (
        record p { metrics = m },
        refl,
        subst IsSound (some-injective other m (sym same)) sound,
        refl,
      )
  react-core waiting (ticked disk now) p v =
      let (m', run, sound, counts) =
        pass-counted p.setting p.time_window now (disk p.log_path) p.position p.metrics v in
      (
        record p {
          position = (parse_log_file (disk p.log_path) p.position).0;
          metrics = m';
          phase = checking;
        },
        rw (react, run) refl,
        sound,
        rw counts refl,
      )
  react-core checking checked p v =
      let m = record p.metrics { counts = check_emergency_cleanup sorting p.metrics.counts } in
      let (other, same, sound) = operate-IsSound sorting p.time_window check p.metrics v in
      (
        record p { metrics = m; phase = waiting },
        refl,
        subst IsSound (some-injective other m (sym same)) sound,
        refl,
      )
  react-core phase e p v = (p, refl, v, refl)

  -- The loop never panics, and what it counts does not depend on the users and connections.
  pub parse_loop-core :
      (es : List Event) (p : Parser)
      → IsSound p.metrics
      → (p' : Parser) × (parse_loop sorting es p ≡ some p')
        × IsSound p'.metrics
        × (core p' ≡ core_run es (core p))
  unfolding parse_loop core_run
  parse_loop-core [] p v = (p, refl, v, refl)
  parse_loop-core (e ∷ es) p v =
      let (p1, here, sound1, same1) = react-core p.phase e p v in
      let (p', there, sound, same) = parse_loop-core es p1 sound1 in
      (p', rw (parse_loop, here) there, sound, same ∙ ap (core_run es) same1)
