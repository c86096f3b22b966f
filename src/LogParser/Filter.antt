-- ===== src/LogParser/Filter.antt =====
-- internal/logparser/filter.go: which addresses are left out of the metrics, and the cache of the
-- answers.
pub mod Cache
pub mod Entries
pub mod Sound
pub mod Keeping
pub mod Calls
mod Tests
use xray_exporter.Common.{
  ℕ, ◌+◌, ◌-◌, ◌*◌, ◌/◌, ◌^◌, Bool, true, false, Option, none, some, List, [], ◌∷◌, ◌==◌, any, map,
  if◌then◌else◌,
}
use xray_exporter.Text.{Text, codes}
use xray_exporter.GoMap.{GoMap, lookup, insert}

-- net.IP as `Contains` reads it: an address of 4 bytes, or of 16 that is not a mapped one of 4.
pub data Ip : Type 0 where
  v4 v6 : ℕ → Ip

-- net.IPNet: the network's address and the length of its prefix.
pub record IpNet : Type 0 where
  pub address : Ip
  pub prefix : ℕ

-- net.ParseIP and the method String.
pub record IpText : Type 0 where
  pub parse_ip : Text → Option Ip
  pub ip_text : Ip → Text

-- The method Contains: the same length, and the same bits under the mask.
unfoldable pub contains : IpNet → Ip → Bool
contains n ip = elim n.address [
  | v4 base ↦ elim ip [
    | v4 a ↦ a / 2 ^ (32 - n.prefix) == base / 2 ^ (32 - n.prefix)
    | v6 a ↦ false
  ]
  | v6 base ↦ elim ip [
    | v4 a ↦ false
    | v6 a ↦ a / 2 ^ (128 - n.prefix) == base / 2 ^ (128 - n.prefix)
  ]
]

-- The sets and networks of `IPFilter`, which never change.
pub record Rules : Type 0 where
  pub system_ips : GoMap Bool
  pub dns_servers : GoMap Bool
  pub private_nets : List IpNet

-- set[ip]
unfoldable pub holds : GoMap Bool → Text → Bool
holds set ip = elim (lookup ip set) [ none ↦ false | some b ↦ b ]

in_private_net : List IpNet → Option Ip → Bool
in_private_net nets none = true
in_private_net nets (some ip) = any (λ n. contains n ip) nets

unfoldable pub should_filter_internal : IpText → Rules → Text → Bool
unfolding holds in_private_net
should_filter_internal texts rules ip =
    if holds rules.system_ips ip
    then true
    else if holds rules.dns_servers ip
    then true
    else in_private_net rules.private_nets (texts.parse_ip ip)

-- the loops of `NewIPFilter` over its lists
all_true : GoMap Bool → List Text → GoMap Bool
all_true set [] = set
all_true set (ip ∷ ips) = all_true (insert ip true set) ips

abbrev pub system_ips : List Text
system_ips = codes "127.0.0.1" ∷ codes "localhost" ∷ codes "::1" ∷ []

abbrev pub dns_servers : List Text
dns_servers = map codes (
    "1.1.1.1" ∷ "1.0.0.1" ∷ "1.1.1.2" ∷ "1.0.0.2" ∷ "1.1.1.3" ∷ "1.0.0.3" ∷ "2606:4700:4700::1111"
    ∷ "2606:4700:4700::1001" ∷ "2606:4700:4700::1112" ∷ "2606:4700:4700::1002"
    ∷ "2606:4700:4700::1113" ∷ "2606:4700:4700::1003" ∷ "8.8.8.8" ∷ "8.8.4.4"
    ∷ "2001:4860:4860::8888" ∷ "2001:4860:4860::8844" ∷ "9.9.9.9" ∷ "149.112.112.112" ∷ "9.9.9.10"
    ∷ "149.112.112.10" ∷ "9.9.9.11" ∷ "149.112.112.11" ∷ "2620:fe::fe" ∷ "2620:fe::9"
    ∷ "2620:fe::10" ∷ "2620:fe::fe:10" ∷ "2620:fe::11" ∷ "2620:fe::fe:11" ∷ "208.67.222.222"
    ∷ "208.67.220.220" ∷ "208.67.222.123" ∷ "208.67.220.123" ∷ "2620:119:35::35" ∷ "2620:119:53::53"
    ∷ "2620:0:ccc::2" ∷ "2620:0:ccd::2" ∷ "94.140.14.14" ∷ "94.140.15.15" ∷ "94.140.14.140"
    ∷ "94.140.14.141" ∷ "94.140.14.15" ∷ "94.140.15.16" ∷ "2a10:50c0::ad1:ff" ∷ "2a10:50c0::ad2:ff"
    ∷ "2a10:50c0::1:ff" ∷ "2a10:50c0::2:ff" ∷ "2a10:50c0::bad1:ff" ∷ "2a10:50c0::bad2:ff" ∷ [])

-- What net.ParseCIDR makes of "10.0.0.0/8", "172.16.0.0/12", "192.168.0.0/16", "fc00::/7" and
-- "fe80::/10".
abbrev pub private_nets : List IpNet
private_nets =
    record { address = v4 (10 * 2 ^ 24); prefix = 8 }
    ∷ record { address = v4 (172 * 2 ^ 24 + 16 * 2 ^ 16); prefix = 12 }
    ∷ record { address = v4 (192 * 2 ^ 24 + 168 * 2 ^ 16); prefix = 16 }
    ∷ record { address = v6 (0xfc00 * 2 ^ 112); prefix = 7 }
    ∷ record { address = v6 (0xfe80 * 2 ^ 112); prefix = 10 }
    ∷ []

unfoldable pub new_rules : Rules
unfolding all_true
new_rules = record {
  system_ips = all_true [] system_ips;
  dns_servers = all_true [] dns_servers;
  private_nets = private_nets;
}
