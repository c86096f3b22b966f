-- ===== src/LogParser/Batch.antt =====
-- `processLine` of internal/logparser/parser.go, and a pass of `parseLogFile` with what it does to
-- the metrics.
pub mod Counted
pub mod Passes
pub mod Shown
pub mod Events
pub mod Cached
pub mod Tests
pub mod Tally
pub mod Requested
use xray_exporter.Common.{
  ℕ, ◌+◌, ◌-◌, Bool, true, false, ◌&&◌, not, Option, none, some, List, [], ◌∷◌, ◌++◌, ltb,
  if◌then◌else◌,
}
use xray_exporter.Text.{Text, codes, text_eq}
use xray_exporter.GoMap.{GoMap, insert}
use xray_exporter.LogParser.Ring.{Time}
use xray_exporter.LogParser.Filter.{Ip, IpText}
use xray_exporter.LogParser.Counts.{Counts, CountMaps, add_count}
use xray_exporter.LogParser.Metrics.{MetricsData, MetricsDelta, no_counts, merge_delta}
use xray_exporter.LogParser.Follow.{Position, LogFile, parse_log_file}
use xray_exporter.LogParser.Line.{
  PublicSuffix, should_skip_line, extract_domain, is_ip_address_fast, normalize_ip, get_root_domain,
  extract_outbound,
}
use xray_exporter.LogParser.Line.Client.{LogEntry, Parsed, failed, skipped, parsed, parse_line}

-- The record that `City` answers with: Country.IsoCode and City.Names["en"].
pub record CityRecord : Type 0 where
  pub iso_code : Text
  pub english_name : Option Text

-- AutonomousSystemNumber and AutonomousSystemOrganization.
pub record AsnRecord : Type 0 where
  pub number : ℕ
  pub organization : Text

-- The readers of a `Parser` that are not nil, each with `none` for an error; a country is its IsoCode.
pub record Readers : Type 0 where
  pub asn_reader : Option (Ip → Option AsnRecord)
  pub country_reader : Option (Ip → Option Text)
  pub city_reader : Option (Ip → Option CityRecord)

-- What a line is processed with: net.ParseIP and String, time.Parse, EffectiveTLDPlusOne,
-- strconv.FormatUint, the readers, and the answers of `ShouldFilter`.
pub record Setting : Type 0 where
  pub texts : IpText
  pub parse_time : Text → Option Time
  pub suffix : PublicSuffix
  pub format_uint : ℕ → Text
  pub readers : Readers
  pub should_filter : Text → Bool

-- `newMetricsDelta`
abbrev pub new_delta : MetricsDelta
new_delta = record { counts = no_counts; unique_ips = []; timestamps = [] }

-- m[k]++
unfoldable pub count : Text → Counts → Counts
unfolding add_count
count k m = add_count k 1 m

-- A key that is not "".
unfoldable pub count_named : Text → Counts → Counts
unfolding count
count_named [] m = m
count_named (c ∷ k) m = count (c ∷ k) m

-- The address counted for a target that looks like one.
unfoldable pub counted_ip : (Text → Bool) → Text → Text
counted_ip should_filter [] = []
counted_ip should_filter (c ∷ ip) = if should_filter (c ∷ ip) then [] else c ∷ ip

-- The address that a target counts, or "", and the domain that it counts, or "".
unfoldable pub target_names_of : Setting → Text → Text × Text
unfolding counted_ip
target_names_of s [] = ([], [])
target_names_of s (c ∷ domain) =
    if is_ip_address_fast (c ∷ domain)
    then (counted_ip s.should_filter (normalize_ip s.texts (c ∷ domain)), [])
    else ([], get_root_domain s.suffix (c ∷ domain))

unfoldable pub target_of : Setting → Text → Text × Text
unfolding target_names_of
target_of s line = target_names_of s (extract_domain line)

abbrev pub unknown : Text
unknown = codes "unknown"

-- The text that a record has, or "unknown".
unfoldable pub known : Text → Text
known [] = unknown
known (c ∷ name) = c ∷ name

-- countryCode and cityName
unfoldable pub place_of : Readers → Ip → Text × Text
unfolding known
place_of readers ip = elim readers.city_reader [
  | some city ↦ elim (city ip) [
    | none ↦ (unknown, unknown)
    | some r ↦ (known r.iso_code, elim r.english_name [ none ↦ unknown | some name ↦ known name ])
  ]
  | none ↦ elim readers.country_reader [
    | none ↦ (unknown, unknown)
    | some country ↦ elim (country ip) [
      | none ↦ (unknown, unknown)
      | some iso_code ↦ (known iso_code, unknown)
    ]
  ]
]

-- asn and org
unfoldable pub network_of : Setting → Ip → Text × Text
network_of s ip = elim s.readers.asn_reader [
  | none ↦ (unknown, unknown)
  | some asn ↦ elim (asn ip) [
    | none ↦ (unknown, unknown)
    | some r ↦ (s.format_uint r.number, r.organization)
  ]
]

-- The counts of an address, a domain and the outbound of a line.
abbrev pub count_names : Text → Text × Text → CountMaps → CountMaps
count_names line (ip, domain) m = record m {
  ips = count_named ip m.ips;
  domains = count_named domain m.domains;
  outbounds = count_named (extract_outbound line) m.outbounds;
}

unfoldable pub count_target : Setting → Text → CountMaps → CountMaps
unfolding target_of
count_target s line = count_names line (target_of s line)

-- a + "|" + b
abbrev pub joined : Text → Text → Text
joined a b = a ++ codes "|" ++ b

-- The counts of the user's place and network.
unfoldable pub count_user : Setting → LogEntry → CountMaps → CountMaps
unfolding place_of network_of count
count_user s entry m =
    let (country, city) = place_of s.readers entry.parsed_ip in
    let (asn, org) = network_of s entry.parsed_ip in
    record m {
      countries = if text_eq country unknown then m.countries else count country m.countries;
      cities = if text_eq city unknown then m.cities else count (joined city country) m.cities;
      asns = count (joined asn org) m.asns;
    }

-- Whether the user of an entry is counted.
unfoldable pub is_user : Setting → Time → LogEntry → Bool
is_user s cutoff entry = not (ltb entry.timestamp cutoff) && not (s.should_filter entry.ip)

-- What an entry's user adds.
abbrev pub user_added : Setting → LogEntry → MetricsDelta → MetricsDelta
user_added s entry delta = record {
  counts = count_user s entry delta.counts;
  unique_ips = insert entry.ip entry.timestamp delta.unique_ips;
  timestamps = delta.timestamps ++ entry.timestamp ∷ [];
}

unfoldable pub add_user : Setting → Time → LogEntry → MetricsDelta → MetricsDelta
unfolding is_user
add_user s cutoff entry delta = if is_user s cutoff entry then user_added s entry delta else delta

-- The entry of a line that is not skipped.
unfoldable pub entry_of_line : Setting → Text → Option LogEntry
entry_of_line s line =
    if should_skip_line line then none else elim (parse_line s.texts s.parse_time line) [
      | failed ↦ none
      | skipped ↦ none
      | parsed entry ↦ some entry
    ]

-- The part of `processLine` after the entry is read.
unfoldable pub process_entry : Setting → Time → MetricsDelta → Text → Option LogEntry → MetricsDelta
unfolding count_target add_user
process_entry s cutoff delta line none = delta
process_entry s cutoff delta line (some entry) =
    add_user s cutoff entry (record delta { counts = count_target s line delta.counts })

-- `processLine`
unfoldable pub process_line : Setting → Time → MetricsDelta → Text → MetricsDelta
unfolding process_entry entry_of_line
process_line s cutoff delta line = process_entry s cutoff delta line (entry_of_line s line)

-- The loop over the lines of a pass.
unfoldable pub process_lines : Setting → Time → MetricsDelta → List Text → MetricsDelta
unfolding process_line
process_lines s cutoff delta [] = delta
process_lines s cutoff delta (line ∷ lines) =
    process_lines s cutoff (process_line s cutoff delta line) lines

-- A pass of `parseLogFile` at the time `now`; on an error there is no line, and the batch is empty.
unfoldable pub pass :
    Setting → ℕ → Time → LogFile → Position × MetricsData → Option (Position × MetricsData)
unfolding process_lines
pass s time_window now file (position, metrics) =
    let (next, lines) = parse_log_file file position in
    elim (merge_delta (process_lines s (now - time_window) new_delta lines) metrics) [
      | none ↦ none
      | some merged ↦ some (next, merged)
    ]
