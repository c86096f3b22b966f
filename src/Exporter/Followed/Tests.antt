-- ===== src/Exporter/Followed/Tests.antt =====
-- A scrape after the log of the loop's tests, in which two lines ask for one domain.
use mathlib.Core.List.{Mem}
use xray_exporter.Common.{
  ◌∷◌, ◌≤◌, List, All, length, false, ◌≡◌, refl, true, some, [], ◌++◌, arith,
}
use xray_exporter.Text.{codes, Text}
use xray_exporter.Common.Float64.{whole}
use xray_exporter.LogParser.Batch.Requested.{
  Kind, of_domains, of_ips, of_outbounds, requests, all_known,
}
use xray_exporter.LogParser.Batch.Tests.Data.{setting}
use xray_exporter.LogParser.Loop.{Parser, new_parser, start, parse_loop}
use xray_exporter.LogParser.Loop.Growing.{events_of, written}
use xray_exporter.LogParser.Loop.Exact.{log_lines, tracked}
use xray_exporter.LogParser.Loop.Whole.{last_pass}
use xray_exporter.LogParser.Loop.Tests.{config, moves, known, two_requests}
use xray_exporter.Exporter.Setup.{Outside, Exporter, new_exporter}
use xray_exporter.Exporter.Collect.{collect}
use xray_exporter.Exporter.Collect.Series.{series_of}
use xray_exporter.Exporter.Collect.Tests.{half, is_ascii, matching-NeedsUtf8}
use xray_exporter.Exporter.Followed.{collect-requests}

abbrev outside : Outside
outside = record {
  client_ok = true;
  databases = setting.readers;
  log_found = true;
  setting = setting;
}

abbrev first : Parser
first = start (new_parser setting config)

abbrev made : Exporter
made = record {
  readers = setting.readers;
  log_parser = some first;
  log_time_window = 300;
  user_traffic = true;
  total_scrapes = 0;
}

made_run : new_exporter outside true config.log_path 300 ≡ some made
unfolding new_exporter xray_exporter.Text.text_eq
made_run = refl

asked : requests of_domains first.setting (codes "example.com") (log_lines (written moves)) ≡ 2
unfolding start new_parser
asked = two_requests

-- What the lines of the log ask for.
abbrev asked_for : Kind → List Text
asked_for of_domains = known
asked_for of_ips = []
asked_for of_outbounds = codes "direct" ∷ []

few : (j : Kind) → length (asked_for j) ≤ tracked j
few of_domains = omega arith
few of_ips = omega arith
few of_outbounds = omega arith

asked_for-ascii : (j : Kind) → All (λ n. is_ascii n ≡ true) (asked_for j)
asked_for-ascii of_domains = (refl, tt)
asked_for-ascii of_ips = tt
asked_for-ascii of_outbounds = (refl, tt)

named : (j : Kind) → all_known j setting (asked_for j) (log_lines (written moves)) ≡ true
unfolding all_known xray_exporter.LogParser.Batch.Requested.requested
    xray_exporter.LogParser.Batch.entry_of_line xray_exporter.LogParser.Line.should_skip_line
    xray_exporter.LogParser.Line.Client.parse_line xray_exporter.LogParser.Line.normalize_ip_parsed
    xray_exporter.GoMap.lookup xray_exporter.Text.text_eq xray_exporter.Text.trim_end
    xray_exporter.Text.trim_start xray_exporter.LogParser.Batch.target_of
    xray_exporter.LogParser.Line.extract_domain xray_exporter.LogParser.Line.is_ip_address_fast
    xray_exporter.Text.contains_rune xray_exporter.LogParser.Line.get_root_domain
    xray_exporter.Text.split xray_exporter.Text.index xray_exporter.Text.has_prefix
    xray_exporter.LogParser.Line.last_index xray_exporter.LogParser.Line.extract_outbound
    xray_exporter.Text.Bytes.trim_space_bytes xray_exporter.LogParser.Line.normalize_ip
    xray_exporter.LogParser.Follow.raw_lines xray_exporter.LogParser.Follow.trim_line written
named of_domains = refl
named of_ips = refl
named of_outbounds = refl

collect-requests_example :
    (p : Parser) × (parse_loop half.sorting (events_of 7 [] (moves ++ last_pass 1300)) first
      ≡ some p)
    × Mem
        (series_of of_domains (codes "example.com") (
          whole false
            (requests of_domains first.setting (codes "example.com") (log_lines (written moves)))))
        (collect (record half { counts = some p.metrics.counts }) (some p.metrics) 4).sent
unfolding start new_parser
collect-requests_example =
    collect-requests is_ascii outside true config.log_path 300 made first of_domains 7 asked_for
      moves 1300 half 4 (codes "example.com") made_run refl few asked_for-ascii named
      (matching-NeedsUtf8 (codes "requested_domain_ip_total") (codes "target"))
      (matching-NeedsUtf8 (codes "outbound_requests_total") (codes "outbound"))
      (omega (arith, asked)) (omega (arith, asked))
