-- ===== src/LogParser/Counts.antt =====
-- The count maps of internal/logparser/parser.go: how they grow, merge and are trimmed.
pub mod Merge
pub mod Top
pub mod Bounds
pub mod Order
use xray_exporter.Common.{
  ℕ, Bool, true, false, ◌||◌, Option, none, some, List, [], ◌∷◌, leb, ltb, if◌then◌else◌, length,
  take,
}
use xray_exporter.Common.Int64.{add64, bias}
use xray_exporter.Common.Sort.{Sorting}
use xray_exporter.Text.{Text}
use xray_exporter.GoMap.{GoMap, lookup, insert}

-- map[string]int64
abbrev pub Counts : Type 0
Counts = GoMap ℕ

-- A missing key reads as 0.
abbrev pub or_zero : Option ℕ → ℕ
or_zero none = 0
or_zero (some c) = c

-- m[k] += v
unfoldable pub add_count : Text → ℕ → Counts → Counts
add_count k v m = insert k (add64 (or_zero (lookup k m)) v) m

-- one of the loops of `mergeDelta` over counts
unfoldable pub merge_counts : Counts → Counts → Counts
unfolding add_count
merge_counts m [] = m
merge_counts m ((k, v) ∷ d) = merge_counts (add_count k v m) d

-- The struct `countEntry`: a key and its count.
abbrev pub CountEntry : Type 0
CountEntry = Text × ℕ

-- The comparison of the sorts, descending by the signed count.
abbrev pub more_often : CountEntry → CountEntry → Bool
more_often a b = ltb (bias b.1) (bias a.1)

-- the loop that fills the result of `keepTopN`
rebuild : Counts → List CountEntry → Counts
rebuild result [] = result
rebuild result ((k, c) ∷ entries) = rebuild (insert k c result) entries

unfoldable pub keep_top_n : Sorting more_often → Counts → ℕ → Counts
unfolding rebuild
keep_top_n sorting counts n =
    if leb (length counts) n then counts else rebuild [] (take n (sorting.sort counts))

-- The six count maps of `MetricsData`.
pub record CountMaps : Type 0 where
  pub domains : Counts
  pub ips : Counts
  pub outbounds : Counts
  pub asns : Counts
  pub countries : Counts
  pub cities : Counts

abbrev pub max_tracked_domains : ℕ
max_tracked_domains = 20

abbrev pub max_tracked_ips : ℕ
max_tracked_ips = 20

abbrev pub max_tracked_outbounds : ℕ
max_tracked_outbounds = 10

abbrev pub max_tracked_asns : ℕ
max_tracked_asns = 20

abbrev pub max_tracked_countries : ℕ
max_tracked_countries = 20

abbrev pub max_tracked_cities : ℕ
max_tracked_cities = 20

unfoldable pub trim_to_top_n : Sorting more_often → CountMaps → CountMaps
trim_to_top_n sorting m = record {
  domains = keep_top_n sorting m.domains max_tracked_domains;
  ips = keep_top_n sorting m.ips max_tracked_ips;
  outbounds = keep_top_n sorting m.outbounds max_tracked_outbounds;
  asns = keep_top_n sorting m.asns max_tracked_asns;
  countries = keep_top_n sorting m.countries max_tracked_countries;
  cities = keep_top_n sorting m.cities max_tracked_cities;
}

abbrev pub max_domains_before_cleanup : ℕ
max_domains_before_cleanup = 100

abbrev pub max_ips_before_cleanup : ℕ
max_ips_before_cleanup = 40

abbrev pub max_outbounds_before_cleanup : ℕ
max_outbounds_before_cleanup = 20

abbrev pub max_asns_before_cleanup : ℕ
max_asns_before_cleanup = 100

abbrev pub max_countries_before_cleanup : ℕ
max_countries_before_cleanup = 100

abbrev pub max_cities_before_cleanup : ℕ
max_cities_before_cleanup = 100

unfoldable pub need_cleanup : CountMaps → Bool
need_cleanup m =
    ltb max_domains_before_cleanup (length m.domains)
    || ltb max_ips_before_cleanup (length m.ips)
    || ltb max_outbounds_before_cleanup (length m.outbounds)
    || ltb max_asns_before_cleanup (length m.asns)
    || ltb max_countries_before_cleanup (length m.countries)
    || ltb max_cities_before_cleanup (length m.cities)

unfoldable pub check_emergency_cleanup : Sorting more_often → CountMaps → CountMaps
check_emergency_cleanup sorting m = if need_cleanup m then trim_to_top_n sorting m else m
