-- ===== src/LogParser/Counts/Bounds.antt =====
-- The sizes of the count maps.
use mathlib.Core.Bool.{false≢true}
use xray_exporter.Common.{ℕ, ◌≤◌, ◌≡◌, refl, sym, ◌∙◌, inl, inr, false, arith, Bool-cases, length}
use xray_exporter.Common.Sort.{Sorting}
use xray_exporter.GoMap.{Distinct}
use xray_exporter.LogParser.Counts.{
  Counts, CountMaps, more_often, keep_top_n, trim_to_top_n, need_cleanup, check_emergency_cleanup,
}
use xray_exporter.LogParser.Counts.Top.{keep_top_n-IsTop}

-- Each of the six maps has one entry for a key.
pub record IsMaps (m : CountMaps) : Type 0 where
  pub domains : Distinct m.domains
  pub ips : Distinct m.ips
  pub outbounds : Distinct m.outbounds
  pub asns : Distinct m.asns
  pub countries : Distinct m.countries
  pub cities : Distinct m.cities

-- The size of each map, bounded.
pub record IsWithin (domains ips outbounds others : ℕ) (m : CountMaps) : Type 0 where
  pub domains_fit : length m.domains ≤ domains
  pub ips_fit : length m.ips ≤ ips
  pub outbounds_fit : length m.outbounds ≤ outbounds
  pub asns_fit : length m.asns ≤ others
  pub countries_fit : length m.countries ≤ others
  pub cities_fit : length m.cities ≤ others

length-keep_top_n :
    (sorting : Sorting more_often) (counts : Counts) (n : ℕ)
    → Distinct counts
    → length (keep_top_n sorting counts n) ≤ n
length-keep_top_n sorting counts n d =
    let (rest, top) = keep_top_n-IsTop sorting counts n d in omega (arith, top.many)

-- A trim leaves at most 20 domains, 20 IPs, 10 outbounds, and 20 of each other kind.
trim-IsWithin :
    (sorting : Sorting more_often) (m : CountMaps)
    → IsMaps m
    → IsWithin 20 20 10 20 (trim_to_top_n sorting m)
unfolding trim_to_top_n
trim-IsWithin sorting m v = record {
  domains_fit = length-keep_top_n sorting m.domains 20 v.domains;
  ips_fit = length-keep_top_n sorting m.ips 20 v.ips;
  outbounds_fit = length-keep_top_n sorting m.outbounds 10 v.outbounds;
  asns_fit = length-keep_top_n sorting m.asns 20 v.asns;
  countries_fit = length-keep_top_n sorting m.countries 20 v.countries;
  cities_fit = length-keep_top_n sorting m.cities 20 v.cities;
}

need_cleanup-IsWithin : (m : CountMaps) → need_cleanup m ≡ false → IsWithin 100 40 20 100 m
unfolding need_cleanup
need_cleanup-IsWithin m e = ground arith

within-need_cleanup : (m : CountMaps) → IsWithin 100 40 20 100 m → need_cleanup m ≡ false
unfolding need_cleanup
within-need_cleanup m w = ground arith

-- After the check that follows each pass, there are at most 100 domains, 40 IPs, 20 outbounds and 100
-- of each other kind, and maps that were within these bounds are unchanged.
pub check_emergency_cleanup-IsWithin :
    (sorting : Sorting more_often) (m : CountMaps)
    → IsMaps m
    → IsWithin 100 40 20 100 (check_emergency_cleanup sorting m)
      × (IsWithin 100 40 20 100 m → check_emergency_cleanup sorting m ≡ m)
unfolding check_emergency_cleanup
check_emergency_cleanup-IsWithin sorting m v = elim (Bool-cases (need_cleanup m)) [
  | inl e ↦
      let t = trim-IsWithin sorting m v in
      rw e (omega arith, λ w. absurd (false≢true (sym (within-need_cleanup m w) ∙ e)))
  | inr e ↦ rw e (need_cleanup-IsWithin m e, λ w. refl)
]
