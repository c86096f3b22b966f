-- ===== src/LogParser/Batch/Counted.antt =====
-- A batch as one name per line and count map.
use mathlib.Core.List.{append_assoc, append-nil}
use xray_exporter.Common.{
  ◌≡◌, refl, sym, ap, ◌∙◌, inl, inr, Option, none, some, List, [], ◌∷◌, ◌++◌, map, if◌then◌else◌,
  Bool-cases,
}
use xray_exporter.Text.{Text, text_eq}
use xray_exporter.LogParser.Ring.{Time}
use xray_exporter.LogParser.Counts.{Counts, CountMaps}
use xray_exporter.LogParser.Metrics.{MetricsDelta}
use xray_exporter.LogParser.Line.{extract_outbound}
use xray_exporter.LogParser.Line.Client.{LogEntry}
use xray_exporter.LogParser.Batch.{
  Setting, count, count_named, target_of, place_of, network_of, unknown, joined, count_target,
  count_user, is_user, add_user, entry_of_line, process_entry, process_line, process_lines,
}
use xray_exporter.LogParser.Batch.Tally.{count_option, count_all}

-- The names that a line counts, none or one for each map, and the time of its user.
pub record LineNames : Type 0 where
  pub domain : Option Text
  pub ip : Option Text
  pub outbound : Option Text
  pub country : Option Text
  pub city : Option Text
  pub asn : Option Text

abbrev pub named : Text → Option Text
named [] = none
named (c ∷ k) = some (c ∷ k)

-- A text that is not "unknown".
abbrev pub unless_unknown : Text → Text → Option Text
unless_unknown test k = if text_eq test unknown then none else some k

abbrev pub no_names : LineNames
no_names = record {
  domain = none;
  ip = none;
  outbound = none;
  country = none;
  city = none;
  asn = none;
}

abbrev pub user_names : Setting → LogEntry → LineNames → LineNames
user_names s entry names =
    let (country, city) = place_of s.readers entry.parsed_ip in
    let (asn, org) = network_of s entry.parsed_ip in
    record names {
      country = unless_unknown country country;
      city = unless_unknown city (joined city country);
      asn = some (joined asn org);
    }

abbrev pub target_names : Setting → Text → LineNames
target_names s line = record no_names {
  ip = named (target_of s line).0;
  domain = named (target_of s line).1;
  outbound = named (extract_outbound line);
}

abbrev pub names_of_entry : Setting → Time → Text → Option LogEntry → LineNames
names_of_entry s cutoff line none = no_names
names_of_entry s cutoff line (some entry) =
    if is_user s cutoff entry then user_names s entry (target_names s line) else target_names s line

unfoldable pub line_names : Setting → Time → Text → LineNames
line_names s cutoff line = names_of_entry s cutoff line (entry_of_line s line)

abbrev pub user_time : Setting → Time → Option LogEntry → List Time
user_time s cutoff none = []
user_time s cutoff (some entry) = if is_user s cutoff entry then entry.timestamp ∷ [] else []

-- The times of the users of a batch.
unfoldable pub user_times : Setting → Time → List Text → List Time
user_times s cutoff [] = []
user_times s cutoff (line ∷ lines) =
    user_time s cutoff (entry_of_line s line) ++ user_times s cutoff lines

abbrev count_maps : LineNames → CountMaps → CountMaps
count_maps n m = record {
  domains = count_option n.domain m.domains;
  ips = count_option n.ip m.ips;
  outbounds = count_option n.outbound m.outbounds;
  asns = count_option n.asn m.asns;
  countries = count_option n.country m.countries;
  cities = count_option n.city m.cities;
}

count_named-named : (k : Text) (m : Counts) → count_named k m ≡ count_option (named k) m
unfolding count_named count_option
count_named-named [] m = refl
count_named-named (c ∷ k) m = refl

count_unless :
    (test k : Text) (m : Counts)
    → (if text_eq test unknown then m else count k m) ≡ count_option (unless_unknown test k) m
unfolding count_option
count_unless test k m = elim (Bool-cases (text_eq test unknown)) [
  | inl e ↦ rw e refl
  | inr e ↦ rw e refl
]

count_target-names :
    (s : Setting) (line : Text) (m : CountMaps)
    → count_target s line m ≡ count_maps (target_names s line) m
unfolding count_target count_option
count_target-names s line m =
    let (ip, domain) = target_of s line in
    rw
      (
        count_named-named (target_of s line).0 m.ips,
        count_named-named (target_of s line).1 m.domains,
        count_named-named (extract_outbound line) m.outbounds,
      )
      refl

count_user-names :
    (s : Setting) (entry : LogEntry) (m : CountMaps)
    → count_user s entry m ≡ count_maps (user_names s entry no_names) m
unfolding count_user count_option
count_user-names s entry m =
    let country = (place_of s.readers entry.parsed_ip).0 in
    let city = (place_of s.readers entry.parsed_ip).1 in
    rw (count_unless country country m.countries, count_unless city (joined city country) m.cities)
      refl

process_entry-names :
    (s : Setting) (cutoff : Time) (d : MetricsDelta) (line : Text) (o : Option LogEntry)
    → ((process_entry s cutoff d line o).counts
        ≡ count_maps (names_of_entry s cutoff line o) d.counts)
      × ((process_entry s cutoff d line o).timestamps ≡ d.timestamps ++ user_time s cutoff o)
unfolding process_entry count_option add_user count_user
process_entry-names s cutoff d line none = (refl, sym (append-nil d.timestamps))
process_entry-names s cutoff d line (some entry) = elim (Bool-cases (is_user s cutoff entry)) [
  | inl u ↦ (
    rw u (
        ap (count_user s entry) (count_target-names s line d.counts)
        ∙ count_user-names s entry (count_maps (target_names s line) d.counts)),
    rw u refl,
  )
  | inr u ↦ (rw u (count_target-names s line d.counts), rw (u, append-nil d.timestamps) refl)
]

abbrev pub count_all_maps : List LineNames → CountMaps → CountMaps
count_all_maps ns m = record {
  domains = count_all (map (λ (n : LineNames). n.domain) ns) m.domains;
  ips = count_all (map (λ (n : LineNames). n.ip) ns) m.ips;
  outbounds = count_all (map (λ (n : LineNames). n.outbound) ns) m.outbounds;
  asns = count_all (map (λ (n : LineNames). n.asn) ns) m.asns;
  countries = count_all (map (λ (n : LineNames). n.country) ns) m.countries;
  cities = count_all (map (λ (n : LineNames). n.city) ns) m.cities;
}

-- A batch counts the names of its lines, and keeps the times of its users in order.
pub process_lines-names :
    (s : Setting) (cutoff : Time) (d : MetricsDelta) (lines : List Text)
    → ((process_lines s cutoff d lines).counts
        ≡ count_all_maps (map (line_names s cutoff) lines) d.counts)
      × ((process_lines s cutoff d lines).timestamps ≡ d.timestamps ++ user_times s cutoff lines)
unfolding process_lines process_line line_names user_times count_all
process_lines-names s cutoff d [] = (refl, sym (append-nil d.timestamps))
process_lines-names s cutoff d (line ∷ lines) =
    let here = process_entry-names s cutoff d line (entry_of_line s line) in
    let rest = process_lines-names s cutoff (process_line s cutoff d line) lines in
    (
      rest.0 ∙ ap (count_all_maps (map (line_names s cutoff) lines)) here.0,
      rest.1
          ∙ ap (λ ts. ts ++ user_times s cutoff lines) here.1
          ∙ append_assoc d.timestamps (user_time s cutoff (entry_of_line s line))
              (user_times s cutoff lines),
    )
