-- ===== src/LogParser/Batch/Cached/Agrees.antt =====
-- The cache changes no batch.
use xray_exporter.Common.{
  ◌≡◌, refl, inl, inr, Option, none, some, List, [], ◌∷◌, ltb, map, Bool-cases,
}
use xray_exporter.Text.{Text}
use xray_exporter.LogParser.Ring.{Time}
use xray_exporter.LogParser.Filter.Cache.{Cache, new_cache}
use xray_exporter.LogParser.Filter.Calls.{should_filter-IsSound, new_cache-IsSound}
use xray_exporter.LogParser.Filter.Sound.{IsSound}
use xray_exporter.LogParser.Metrics.{MetricsDelta}
use xray_exporter.LogParser.Line.{is_ip_address_fast, normalize_ip, extract_domain}
use xray_exporter.LogParser.Line.Client.{LogEntry}
use xray_exporter.LogParser.Batch.{
  Setting, counted_ip, target_names_of, target_of, count_target, is_user, add_user, entry_of_line,
  process_entry, process_line, process_lines, new_delta,
}
use xray_exporter.LogParser.Batch.Cached.{
  unless_filtered, unless_internal, asked, cached_ip, with_domain, cached_target, cached_user,
  cached_add, cached_count, cached_entry, process_cached, process_batches,
}

module _ (s : Setting) (cutoff : Time) where
  -- The caches that give the right answers.
  abbrev Right : Cache → Type 0
  Right = IsSound s.should_filter 100_000

  asked-Right :
      (ip : Text) (c : Cache)
      → Right c
      → (next : Cache) × (asked s cutoff ip c ≡ some (next, s.should_filter ip)) × Right next
  unfolding asked
  asked-Right ip c v = should_filter-IsSound s.should_filter 100_000 [] ip c v

  cached_ip-counted_ip :
      (ip : Text) (c : Cache)
      → Right c
      → (next : Cache) × (cached_ip s cutoff ip c ≡ some (next, counted_ip s.should_filter ip))
        × Right next
  unfolding cached_ip unless_filtered counted_ip
  cached_ip-counted_ip [] c v = (c, refl, v)
  cached_ip-counted_ip (a ∷ ip) c v =
      let (next, run, sound) = asked-Right (a ∷ ip) c v in (next, rw run refl, sound)

  cached_target-names :
      (domain : Text) (c : Cache)
      → Right c
      → (next : Cache) × (cached_target s cutoff domain c ≡ some (next, target_names_of s domain))
        × Right next
  unfolding cached_target target_names_of with_domain
  cached_target-names [] c v = (c, refl, v)
  cached_target-names (a ∷ domain) c v = elim (Bool-cases (is_ip_address_fast (a ∷ domain))) [
    | inl e ↦
        let (next, run, sound) = cached_ip-counted_ip (normalize_ip s.texts (a ∷ domain)) c v in
        (next, rw (e, run) refl, sound)
    | inr e ↦ (c, rw e refl, v)
  ]

  cached_user-is_user :
      (entry : LogEntry) (c : Cache)
      → Right c
      → (next : Cache) × (cached_user s cutoff entry c ≡ some (next, is_user s cutoff entry))
        × Right next
  unfolding cached_user unless_internal is_user
  cached_user-is_user entry c v = elim (Bool-cases (ltb entry.timestamp cutoff)) [
    | inl e ↦ (c, rw e refl, v)
    | inr e ↦ let (next, run, sound) = asked-Right entry.ip c v in (next, rw (e, run) refl, sound)
  ]

  cached_entry-process_entry :
      (line : Text) (o : Option LogEntry) (c : Cache) (delta : MetricsDelta)
      → Right c
      → (next : Cache) × (cached_entry s cutoff line o (c, delta)
          ≡ some (next, process_entry s cutoff delta line o))
        × Right next
  unfolding cached_entry process_entry count_target target_of cached_count cached_add add_user
  cached_entry-process_entry line none c delta v = (c, refl, v)
  cached_entry-process_entry line (some entry) c delta v =
      let (mid, run, sound) = cached_target-names (extract_domain line) c v in
      let (next, user, good) = cached_user-is_user entry mid sound in
      (next, rw (cached_entry, run, cached_count, user) refl, good)

  process_cached-process_lines :
      (lines : List Text) (c : Cache) (delta : MetricsDelta)
      → Right c
      → (next : Cache) × (process_cached s cutoff lines (c, delta)
          ≡ some (next, process_lines s cutoff delta lines))
        × Right next
  unfolding process_cached process_lines process_line
  process_cached-process_lines [] c delta v = (c, refl, v)
  process_cached-process_lines (line ∷ lines) c delta v =
      let (mid, run, sound) = cached_entry-process_entry line (entry_of_line s line) c delta v in
      let (next, rest, good) =
        process_cached-process_lines lines mid (process_line s cutoff delta line) sound in
      (next, rw (process_cached, run) rest, good)

process_batches-Right :
    (s : Setting) (batches : List (Time × List Text)) (c : Cache)
    → IsSound s.should_filter 100_000 c
    → (next : Cache) × (process_batches s batches c
        ≡ some (next, map (λ (b : Time × List Text). process_lines s b.0 new_delta b.1) batches))
      × IsSound s.should_filter 100_000 next
unfolding process_batches
process_batches-Right s [] c v = (c, refl, v)
process_batches-Right s ((cutoff, lines) ∷ batches) c v =
    let (mid, run, sound) = process_cached-process_lines s cutoff lines c new_delta v in
    let (next, rest, good) = process_batches-Right s batches mid sound in
    (next, rw (process_batches, run, rest) refl, good)

-- Over the batches of any number of passes of a new parser, whose `ShouldFilter` looks every address up in
-- the one cache and stores what it does not find: nothing panics, and each batch is what its lines
-- make with the answers that `shouldFilterInternal` gives.
pub process_batches-process_lines :
    (s : Setting) (batches : List (Time × List Text))
    → (next : Cache) × (process_batches s batches new_cache
        ≡ some (next, map (λ (b : Time × List Text). process_lines s b.0 new_delta b.1) batches))
process_batches-process_lines s batches =
    let (next, run, sound) =
      process_batches-Right s batches new_cache (new_cache-IsSound s.should_filter) in
    (next, run)
