-- ===== src/LogParser/Batch/Tests/Data.antt =====
-- A small log, and answers of the packages for it.
use xray_exporter.Common.{ℕ, ◌==◌, if◌then◌else◌, ◌+◌, ◌*◌, ◌^◌, none, some, List, [], ◌∷◌}
use xray_exporter.Text.{Text, codes, text_eq}
use xray_exporter.GoMap.{GoMap, lookup}
use xray_exporter.LogParser.Filter.{Ip, v4, v6, IpText}
use xray_exporter.LogParser.Batch.{Setting}

abbrev pub table : GoMap Ip
table =
    (codes "203.0.113.9", v4 (203 * 2 ^ 24 + 113 * 2 ^ 8 + 9))
    ∷ (codes "10.0.0.1", v4 (10 * 2 ^ 24 + 1))
    ∷ (codes "192.0.2.1", v4 (192 * 2 ^ 24 + 2 * 2 ^ 8 + 1))
    ∷ []

-- The text of an address of the table.
abbrev pub text_of : GoMap Ip → ℕ → Text
text_of [] a = []
text_of ((t, v4 b) ∷ m) a = if a == b then t else text_of m a
text_of ((t, v6 b) ∷ m) a = text_of m a

abbrev pub ip_text_of : Ip → Text
ip_text_of (v4 a) = text_of table a
ip_text_of (v6 a) = []

abbrev pub texts : IpText
texts = record { parse_ip = λ t. lookup t table; ip_text = ip_text_of }

abbrev pub setting : Setting
setting = record {
  texts = texts;
  parse_time = λ t. some 1000;
  suffix = λ d. none;
  format_uint = λ n. codes "64500";
  readers = record {
    asn_reader = some (λ ip. some (record { number = 64500; organization = codes "Org" }));
    country_reader = some (λ ip. some (codes "DE"));
    city_reader = none;
  };
  should_filter = text_eq (codes "10.0.0.1");
}

abbrev pub log : List Text
log =
    codes "2024/01/02 03:04:05 from 203.0.113.9:5000 accepted tcp:a.example.com:443 [in -> direct]"
    ∷ codes "2024/01/02 03:04:05 from 10.0.0.1:5001 accepted tcp:192.0.2.1:80 [in -> direct]"
    ∷ codes "not a line of the log"
    ∷ codes "2024/01/02 03:04:05 from tcp:203.0.113.9:5002 accepted udp:10.0.0.1:53 [in >> block]"
    ∷ []
