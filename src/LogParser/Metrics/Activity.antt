-- ===== src/LogParser/Metrics/Activity.antt =====
-- The users and the connections of the time window.
use xray_exporter.Common.{
  ℕ, ◌-◌, ◌≡◌, refl, sym, ap, ◌∙◌, inl, inr, Bool, true, false, not, none, some, List, [], ◌∷◌,
  ◌++◌, arith, length, ltb, select, Bool-cases,
}
use xray_exporter.Text.{Text}
use xray_exporter.GoMap.{GoMap, lookup, delete, Distinct, text_eq_iff, text_eq_refl}
use xray_exporter.GoMap.Keys.{has_text}
use xray_exporter.LogParser.Ring.{Time}
use xray_exporter.LogParser.Ring.Window.{IsRing, contents}
use xray_exporter.LogParser.Ring.Batches.{keep_last, add_all-keep_last}
use xray_exporter.LogParser.Ring.Expiring.{drop_expired, expire-drop_expired}
use xray_exporter.LogParser.Metrics.{
  MetricsData, MetricsDelta, new_metrics, merge_delta, merge_ips, merge_all_counts, scan_ips,
  delete_all, get_metrics,
}

-- The metrics of a new parser have an empty, well-formed buffer.
pub new_metrics-IsRing :
    (time_window : ℕ)
    → IsRing (new_metrics time_window).connections
      × (contents (new_metrics time_window).connections ≡ [])
unfolding new_metrics contents
new_metrics-IsRing w = (
  record {
    room = ground arith;
    fits = omega arith;
    held = omega arith;
    inside = ground arith;
    growing = λ h. refl;
  },
  refl,
)

spared : List Text → Text × Time → Bool
spared ips e = not (has_text e.0 ips)

select-select :
    (k : Text) (ips : List Text) (m : GoMap Time)
    → select (spared ips) (delete k m) ≡ select (spared (k ∷ ips)) m
unfolding delete spared
select-select k ips [] = refl
select-select k ips ((j, t) ∷ m) =
    ground (arith, select-select k ips m, text_eq_iff j k, text_eq_iff k j)

select_everything : (m : GoMap Time) → select (spared []) m ≡ m
unfolding spared
select_everything [] = refl
select_everything (e ∷ m) = ap (◌∷◌ e) (select_everything m)

delete_all-select : (ips : List Text) (m : GoMap Time) → delete_all ips m ≡ select (spared ips) m
unfolding delete_all
delete_all-select [] m = sym (select_everything m)
delete_all-select (k ∷ ips) m = delete_all-select ips (delete k m) ∙ select-select k ips m

absent-spared :
    (k : Text) (ips : List Text) (m : GoMap Time)
    → lookup k m ≡ none
    → select (spared (k ∷ ips)) m ≡ select (spared ips) m
unfolding spared lookup
absent-spared k ips [] h = refl
absent-spared k ips ((j, t) ∷ m) h =
    ground (arith, absent-spared k ips m, text_eq_iff j k, text_eq_iff k j)

not_expired :
    (cutoff : Time) (k : Text) (m : GoMap Time)
    → lookup k m ≡ none
    → has_text k (scan_ips cutoff m).1 ≡ false
unfolding scan_ips lookup
not_expired cutoff k [] h = refl
not_expired cutoff k ((j, t) ∷ m) h =
    ground (arith, not_expired cutoff k m, text_eq_iff j k, text_eq_iff k j)

abbrev pub is_active : Time → Text × Time → Bool
is_active cutoff e = ltb cutoff e.1

scan_ips-kept :
    (cutoff : Time) (j : Text) (t : Time) (m : GoMap Time)
    → ltb cutoff t ≡ true
    → (scan_ips cutoff ((j, t) ∷ m)).1 ≡ (scan_ips cutoff m).1
unfolding scan_ips
scan_ips-kept cutoff j t m e = rw e refl

scan_ips-expired :
    (cutoff : Time) (j : Text) (t : Time) (m : GoMap Time)
    → ltb cutoff t ≡ false
    → (scan_ips cutoff ((j, t) ∷ m)).1 ≡ j ∷ (scan_ips cutoff m).1
unfolding scan_ips
scan_ips-expired cutoff j t m e = rw e refl

spared-active :
    (cutoff : Time) (m : GoMap Time)
    → Distinct m
    → select (spared (scan_ips cutoff m).1) m ≡ select (is_active cutoff) m
unfolding spared
spared-active cutoff [] d = refl
spared-active cutoff ((j, t) ∷ m) d = elim (Bool-cases (ltb cutoff t)) [
  | inl e ↦
      ap (λ ips. select (spared ips) ((j, t) ∷ m)) (scan_ips-kept cutoff j t m e)
      ∙ (rw (not_expired cutoff j m d.0, e) (ap (◌∷◌ (j, t)) (spared-active cutoff m d.1)))
  | inr e ↦
      ap (λ ips. select (spared ips) ((j, t) ∷ m)) (scan_ips-expired cutoff j t m e)
      ∙ (rw (text_eq_refl j, e)
          (absent-spared j (scan_ips cutoff m).1 m d.0 ∙ spared-active cutoff m d.1))
]

scan_ips-active :
    (cutoff : Time) (m : GoMap Time) → (scan_ips cutoff m).0 ≡ length (select (is_active cutoff) m)
unfolding scan_ips
scan_ips-active cutoff [] = refl
scan_ips-active cutoff ((j, t) ∷ m) = ground (arith, scan_ips-active cutoff m)

-- What `GetMetrics` leaves: the addresses last seen after the cutoff, and the connections from
-- the first one after the cutoff on.
pub record IsCleaned (cutoff : Time) (m m' : MetricsData) : Type 0 where
  pub ips : m'.unique_ips ≡ select (is_active cutoff) m.unique_ips
  pub kept : contents m'.connections ≡ drop_expired cutoff (contents m.connections)
  pub counts : m'.counts ≡ m.counts
  pub sound : IsRing m'.connections

-- On a well-formed buffer and a map of addresses without two entries for one, `GetMetrics` does not
-- panic. It keeps the addresses last seen after the cutoff, and the connections from the first
-- one after the cutoff on, changes no count, and returns how many addresses and connections are left.
-- Connections behind that first one stay, also those that are older.
pub get_metrics-IsCleaned :
    (time_window : ℕ) (now : Time) (m : MetricsData)
    → IsRing m.connections
    → Distinct m.unique_ips
    → (m' : MetricsData) × (get_metrics time_window now m
        ≡ some (m', (length m'.unique_ips, length (contents m'.connections))))
      × IsCleaned (now - time_window) m m'
unfolding get_metrics
get_metrics-IsCleaned w now m v d =
    let cutoff = now - w in
    let (ring, run, v', kept, count) = expire-drop_expired m.connections cutoff v in
    let ips =
      delete_all-select (scan_ips cutoff m.unique_ips).1 m.unique_ips
      ∙ spared-active cutoff m.unique_ips d in
    let left = select (is_active cutoff) m.unique_ips in
    (
      record m { unique_ips = left; connections = ring },
      rw (get_metrics, run, ips, scan_ips-active cutoff m.unique_ips, count) refl,
      record { ips = refl; kept = kept; counts = refl; sound = v' },
    )

-- Merging a batch into metrics with a well-formed buffer does not panic, and leaves in the buffer the
-- last timestamps that fit, merges the counts and the addresses of the batch.
pub merge_delta-keep_last :
    (d : MetricsDelta) (m : MetricsData)
    → IsRing m.connections
    → (m' : MetricsData) × (merge_delta d m ≡ some m')
      × IsRing m'.connections
      × (contents m'.connections
          ≡ keep_last m.connections.cap (contents m.connections ++ d.timestamps))
      × (m'.counts ≡ merge_all_counts m.counts d.counts)
      × (m'.unique_ips ≡ merge_ips m.unique_ips d.unique_ips)
unfolding merge_delta
merge_delta-keep_last d m v =
    let (ring, run, v', same, kept) = add_all-keep_last m.connections d.timestamps v in
    (
      record {
        unique_ips = merge_ips m.unique_ips d.unique_ips;
        counts = merge_all_counts m.counts d.counts;
        connections = ring;
      },
      rw (merge_delta, run) refl,
      v',
      kept,
      refl,
      refl,
    )
