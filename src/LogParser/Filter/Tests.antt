-- ===== src/LogParser/Filter/Tests.antt =====
-- Runs of the address filter, with a table of addresses for net.ParseIP.
use xray_exporter.Common.{
  ◌+◌, ◌*◌, ◌^◌, ◌≤◌, ◌≡◌, refl, Bool, true, false, some, List, [], ◌∷◌, map, length,
}
use xray_exporter.Text.{Text, codes}
use xray_exporter.GoMap.{GoMap, lookup}
use xray_exporter.LogParser.Filter.{Ip, v4, v6, IpText, should_filter_internal, new_rules}
use xray_exporter.LogParser.Filter.Cache.{Cache, new_cache}
use xray_exporter.LogParser.Filter.Calls.{
  Section, looking, storing, run_sections, should_filter, should_filter-should_filter_internal,
}

abbrev table : GoMap Ip
table =
    (codes "8.8.8.8", v4 (8 * 2 ^ 24 + 8 * 2 ^ 16 + 8 * 2 ^ 8 + 8))
    ∷ (codes "172.31.0.1", v4 (172 * 2 ^ 24 + 31 * 2 ^ 16 + 1))
    ∷ (codes "172.32.0.1", v4 (172 * 2 ^ 24 + 32 * 2 ^ 16 + 1))
    ∷ (codes "fd00::1", v6 (0xfd00 * 2 ^ 112 + 1))
    ∷ (codes "2001:db8::1", v6 (0x20010db8 * 2 ^ 96 + 1))
    ∷ []

abbrev texts : IpText
texts = record { parse_ip = λ t. lookup t table; ip_text = λ ip. [] }

abbrev answer : Text → Bool
answer = should_filter_internal texts new_rules

answers :
    map
      (λ s. answer (codes s))
      ("localhost" ∷ "8.8.8.8" ∷ "172.31.0.1" ∷ "172.32.0.1" ∷ "fd00::1" ∷ "2001:db8::1"
        ∷ "nonsense" ∷ [])
    ≡ true ∷ true ∷ true ∷ false ∷ true ∷ false ∷ true ∷ []
unfolding should_filter_internal lookup new_rules xray_exporter.GoMap.insert
    xray_exporter.Text.text_eq xray_exporter.LogParser.Filter.contains
answers = refl

abbrev before : List Section
before = storing (codes "8.8.8.8") ∷ looking (codes "8.8.8.8") ∷ []

abbrev between : List Section
between = storing (codes "172.32.0.1") ∷ storing (codes "fd00::1") ∷ looking (codes "8.8.8.8") ∷ []

should_filter-should_filter_internal_example :
    (c next : Cache) × (run_sections (should_filter_internal texts new_rules) before new_cache
      ≡ some c)
    × (should_filter (should_filter_internal texts new_rules) between (codes "172.32.0.1") c
        ≡ some (next, should_filter_internal texts new_rules (codes "172.32.0.1")))
    × (length next.lru ≤ 100_000)
should_filter-should_filter_internal_example =
    should_filter-should_filter_internal texts new_rules before between (codes "172.32.0.1")
