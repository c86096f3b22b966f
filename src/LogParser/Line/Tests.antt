-- ===== src/LogParser/Line/Tests.antt =====
-- Lines of an access log, read.
use xray_exporter.Common.{◌≡◌, refl, true, false, none, some, [], ◌∷◌, ◌++◌, map}
use xray_exporter.Text.{Text, codes}
use xray_exporter.LogParser.Line.{
  should_skip_line, extract_domain, extract_outbound, is_ip_address_fast, get_root_domain,
}
use xray_exporter.LogParser.Line.Client.{new_format_ip}
use xray_exporter.LogParser.Line.Target.{udp, extract_domain-written}

abbrev plain : Text
plain =
    codes
      "2024/01/02 03:04:05 from tcp:203.0.113.9:5000 accepted tcp:a.example.com:443 [in -> direct] email: x"

abbrev bracketed : Text
bracketed =
    codes "2024/01/02 03:04:05 from [2001:db8::7]:5000 accepted udp:[2001:db8::1]:53 [in >> out ]"

read :
    map should_skip_line (plain ∷ bracketed ∷ codes "# from a comment line" ∷ [])
    ≡ false ∷ false ∷ true ∷ []
unfolding should_skip_line
read = refl

clients :
    map new_format_ip (plain ∷ bracketed ∷ codes "from :1" ∷ codes "from udp:1.2.3.4:5 x" ∷ [])
    ≡ some (codes "203.0.113.9")
      ∷ some (codes "[2001:db8::7]")
      ∷ none
      ∷ some (codes "udp:1.2.3.4")
      ∷ []
unfolding new_format_ip xray_exporter.Text.has_prefix xray_exporter.LogParser.Line.last_index
clients = refl

targets :
    map extract_domain (plain ∷ bracketed ∷ []) ≡ codes "a.example.com" ∷ codes "[2001:db8::1]" ∷ []
unfolding extract_domain xray_exporter.Text.index
targets = refl

outbounds :
    map extract_outbound (plain ∷ bracketed ∷ codes "[a] [->] [b->->c]" ∷ codes "[x" ∷ [])
    ≡ codes "direct" ∷ codes "out" ∷ codes "->c" ∷ [] ∷ []
unfolding extract_outbound xray_exporter.Text.has_prefix xray_exporter.Text.Bytes.trim_space_bytes
    xray_exporter.Text.trim_start
outbounds = refl

-- A target in brackets does not look like an address, and a name of hexadecimal letters does.
heuristic :
    map
      (λ s. is_ip_address_fast (codes s))
      ("192.0.2.1" ∷ "2001:db8::1" ∷ "[2001:db8::1]" ∷ "abc.de" ∷ "a.example" ∷ [])
    ≡ true ∷ true ∷ false ∷ true ∷ false ∷ []
unfolding is_ip_address_fast xray_exporter.Text.contains_rune
heuristic = refl

roots :
    map (get_root_domain (λ d. none)) (codes "a.b.example" ∷ codes "localhost" ∷ [] ∷ [])
    ≡ codes "b.example" ∷ codes "localhost" ∷ [] ∷ []
unfolding get_root_domain xray_exporter.Text.split
roots = refl

extract_domain-written_example :
    extract_domain (
      (codes "from 203.0.113.9:5000 " ++ codes "accepted ")
      ++ (codes "udp:" ++ ((codes "dns.example" ++ 58 ∷ codes "53") ++ 32 ∷ codes "[in -> out]")))
    ≡ codes "dns.example"
unfolding xray_exporter.Text.index xray_exporter.Text.has_prefix xray_exporter.Text.contains_rune
extract_domain-written_example =
    extract_domain-written (codes "from 203.0.113.9:5000 ") udp (codes "dns.example") (codes "53")
      (codes "[in -> out]") refl refl refl refl
