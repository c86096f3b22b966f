-- ===== src/LogParser/Batch/Cached.antt =====
-- `processLine` as it calls `ShouldFilter`, with the cache of the answers passed on from call to call;
-- `none` is a panic of the cache. Only the goroutine of `parseLoop` calls it here.
pub mod Agrees
use xray_exporter.Common.{
  ℕ, ◌-◌, ◌≤◌, ◌≡◌, refl, ap, ◌∙◌, inl, inr, Bool, true, false, not, Option, none, some, List, [],
  ◌∷◌, arith, ltb, length, map, if◌then◌else◌, Bool-cases,
}
use xray_exporter.Text.{Text}
use xray_exporter.LogParser.Ring.{Time}
use xray_exporter.LogParser.Filter.Cache.{Cache, new_cache}
use xray_exporter.LogParser.Filter.Calls.{should_filter, should_filter-IsSound, new_cache-IsSound}
use xray_exporter.LogParser.Filter.Sound.{IsSound}
use xray_exporter.LogParser.Counts.{CountMaps}
use xray_exporter.LogParser.Metrics.{MetricsDelta}
use xray_exporter.LogParser.Line.{
  is_ip_address_fast, normalize_ip, get_root_domain, extract_domain, extract_outbound,
}
use xray_exporter.LogParser.Line.Client.{LogEntry}
use xray_exporter.LogParser.Batch.{
  Setting, counted_ip, target_names_of, target_of, count_names, user_added, count_target,
  count_user, is_user, add_user, entry_of_line, process_entry, process_line, process_lines,
  new_delta,
}

-- The address counted for a target, from what `ShouldFilter` answers.
unless_filtered : Text → Option (Cache × Bool) → Option (Cache × Text)
unless_filtered ip none = none
unless_filtered ip (some (c, filtered)) = some (c, if filtered then [] else ip)

-- Whether the user of an entry is counted.
unless_internal : Option (Cache × Bool) → Option (Cache × Bool)
unless_internal none = none
unless_internal (some (c, filtered)) = some (c, not filtered)

module _ (s : Setting) (cutoff : Time) where
  -- What `shouldFilterInternal` answers is the setting's.
  asked : Text → Cache → Option (Cache × Bool)
  asked ip c = should_filter s.should_filter [] ip c

  cached_ip : Text → Cache → Option (Cache × Text)
  unfolding unless_filtered asked
  cached_ip [] c = some (c, [])
  cached_ip (a ∷ ip) c = unless_filtered (a ∷ ip) (asked (a ∷ ip) c)

  with_domain : Option (Cache × Text) → Option (Cache × (Text × Text))
  with_domain none = none
  with_domain (some (c, ip)) = some (c, (ip, []))

  cached_target : Text → Cache → Option (Cache × (Text × Text))
  unfolding cached_ip with_domain
  cached_target [] c = some (c, ([], []))
  cached_target (a ∷ domain) c =
      if is_ip_address_fast (a ∷ domain)
      then with_domain (cached_ip (normalize_ip s.texts (a ∷ domain)) c)
      else some (c, ([], get_root_domain s.suffix (a ∷ domain)))

  cached_user : LogEntry → Cache → Option (Cache × Bool)
  unfolding unless_internal asked
  cached_user entry c =
      if ltb entry.timestamp cutoff then some (c, false) else unless_internal (asked entry.ip c)

  -- The user of an entry, after its target.
  cached_add : LogEntry → MetricsDelta → Option (Cache × Bool) → Option (Cache × MetricsDelta)
  cached_add entry delta none = none
  cached_add entry delta (some (c, counted)) =
      some (c, if counted then user_added s entry delta else delta)

  cached_count :
      Text
      → LogEntry
      → MetricsDelta
      → Option (Cache × (Text × Text))
      → Option (Cache × MetricsDelta)
  unfolding cached_user cached_add
  cached_count line entry delta none = none
  cached_count line entry delta (some (c, names)) =
      cached_add entry (record delta { counts = count_names line names delta.counts })
        (cached_user entry c)

  cached_entry : Text → Option LogEntry → Cache × MetricsDelta → Option (Cache × MetricsDelta)
  unfolding cached_target cached_count
  cached_entry line none (c, delta) = some (c, delta)
  cached_entry line (some entry) (c, delta) =
      cached_count line entry delta (cached_target (extract_domain line) c)

  -- The loop over the lines of a pass, calling `ShouldFilter`.
  unfoldable pub process_cached : List Text → Cache × MetricsDelta → Option (Cache × MetricsDelta)
  unfolding cached_entry
  process_cached [] state = some state
  process_cached (line ∷ lines) state = elim (cached_entry line (entry_of_line s line) state) [
    | none ↦ none
    | some next ↦ process_cached lines next
  ]

-- The batches of several passes, each with its cutoff and its lines, over one cache.
unfoldable pub process_batches :
    Setting → List (Time × List Text) → Cache → Option (Cache × List MetricsDelta)
unfolding process_cached
process_batches s [] c = some (c, [])
process_batches s ((cutoff, lines) ∷ batches) c =
    elim (process_cached s cutoff lines (c, new_delta)) [
      | none ↦ none
      | some (next, delta) ↦ elim (process_batches s batches next) [
        | none ↦ none
        | some (last, deltas) ↦ some (last, delta ∷ deltas)
      ]
    ]
