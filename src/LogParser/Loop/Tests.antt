-- ===== src/LogParser/Loop/Tests.antt =====
-- The loop on a small log that grows while it is read.
use xray_exporter.Common.{◌≡◌, refl, true, false, none, some, List, [], ◌∷◌, ◌++◌, arith}
use xray_exporter.Text.{Text, codes}
use xray_exporter.GoMap.{lookup}
use xray_exporter.LogParser.Counts.Order.{sort_entries}
use xray_exporter.LogParser.Batch.Tally.{increased}
use xray_exporter.LogParser.Batch.Requested.{
  of_domains, of_outbounds, counts_of, requests, all_known,
}
use xray_exporter.LogParser.Batch.Tests.Data.{setting}
use xray_exporter.LogParser.Loop.{
  Config, Parser, Event, new_parser, start, parse_loop, done, checked, stop_called, ticked,
  returned,
}
use xray_exporter.LogParser.Loop.Growing.{
  Move, wrote, passed, rechecked, trimmed, looked, log_file, events_of, written,
}
use xray_exporter.LogParser.Loop.Exact.{log_lines}
use xray_exporter.LogParser.Loop.Whole.{no_failure, last_pass, parse_loop-exact}
use xray_exporter.LogParser.Loop.Stopping.{stops, parse_loop-stopped}

abbrev pub config : Config
config = record {
  log_path = codes "/var/log/xray/access.log";
  time_window = 300;
  readers = setting.readers;
}

abbrev first_half : Text
first_half = codes "2024/01/02 03:04:05 from 203.0.113.9:5000 accepted tcp:a.example.com"

abbrev second_half : Text
second_half = codes ":443 [in -> direct]" ++ 10 ∷ []

-- A line that arrives in two parts, the second while a pass runs, between a trim and a pass that fails.
abbrev pub moves : List Move
moves =
    wrote first_half
    ∷ passed no_failure second_half 1100
    ∷ looked 1150
    ∷ rechecked
    ∷ trimmed
    ∷ passed (record no_failure { seek_ok = false }) first_half 1200
    ∷ wrote second_half
    ∷ []

abbrev pub known : List Text
known = codes "example.com" ∷ []

pub two_requests : requests of_domains setting (codes "example.com") (log_lines (written moves)) ≡ 2
unfolding requests xray_exporter.LogParser.Batch.Tally.occurrences
    xray_exporter.LogParser.Batch.Requested.requested xray_exporter.LogParser.Batch.entry_of_line
    xray_exporter.LogParser.Line.should_skip_line xray_exporter.LogParser.Line.Client.parse_line
    xray_exporter.LogParser.Line.normalize_ip_parsed lookup xray_exporter.Text.text_eq
    xray_exporter.Text.trim_end xray_exporter.Text.trim_start
    xray_exporter.LogParser.Batch.target_of xray_exporter.LogParser.Line.extract_domain
    xray_exporter.LogParser.Line.is_ip_address_fast xray_exporter.Text.contains_rune
    xray_exporter.LogParser.Line.get_root_domain xray_exporter.Text.split xray_exporter.Text.index
    xray_exporter.Text.has_prefix xray_exporter.LogParser.Line.last_index
    xray_exporter.LogParser.Line.extract_outbound xray_exporter.Text.Bytes.trim_space_bytes
    xray_exporter.LogParser.Line.normalize_ip xray_exporter.LogParser.Follow.raw_lines
    xray_exporter.LogParser.Follow.trim_line written
two_requests = refl

pub all_named :
    all_known of_domains (new_parser setting config).setting known (log_lines (written moves))
    ≡ true
unfolding all_known new_parser xray_exporter.LogParser.Batch.Requested.requested
    xray_exporter.LogParser.Batch.entry_of_line xray_exporter.LogParser.Line.should_skip_line
    xray_exporter.LogParser.Line.Client.parse_line xray_exporter.LogParser.Line.normalize_ip_parsed
    lookup xray_exporter.Text.text_eq xray_exporter.Text.trim_end xray_exporter.Text.trim_start
    xray_exporter.LogParser.Batch.target_of xray_exporter.LogParser.Line.extract_domain
    xray_exporter.LogParser.Line.is_ip_address_fast xray_exporter.Text.contains_rune
    xray_exporter.LogParser.Line.get_root_domain xray_exporter.Text.split xray_exporter.Text.index
    xray_exporter.Text.has_prefix xray_exporter.LogParser.Line.last_index
    xray_exporter.LogParser.Line.extract_outbound xray_exporter.Text.Bytes.trim_space_bytes
    xray_exporter.LogParser.Line.normalize_ip xray_exporter.LogParser.Follow.raw_lines
    xray_exporter.LogParser.Follow.trim_line written
all_named = refl

parse_loop-exact_example :
    (p : Parser) × (parse_loop sort_entries
        (events_of 7 [] (moves ++ last_pass 1300))
        (start (new_parser setting config))
      ≡ some p)
    × ((k : Text)
        → lookup k (counts_of of_domains p.metrics.counts)
          ≡ increased none (
              requests of_domains
                (new_parser setting config).setting
                k
                (log_lines (written moves))))
parse_loop-exact_example =
    parse_loop-exact sort_entries of_domains setting config 7 known moves 1300 (omega arith)
      all_named

abbrev until_stop : List Event
until_stop =
    ticked (λ path. log_file 7 no_failure first_half []) 1100 ∷ stop_called ∷ checked ∷ done ∷ []

parse_loop-stopped_example :
    (p q r : Parser) × (parse_loop sort_entries until_stop (start (new_parser setting config))
      ≡ some p)
    × (parse_loop sort_entries until_stop p ≡ some q)
    × (parse_loop sort_entries (checked ∷ done ∷ []) p ≡ some r)
    × (p.phase ≡ returned
        → (stops until_stop ≡ true)
          × (q.phase ≡ returned)
          × (q.position ≡ p.position)
          × (q.metrics.counts ≡ p.metrics.counts))
    × (stops until_stop ≡ true → r.phase ≡ returned)
parse_loop-stopped_example = parse_loop-stopped sort_entries setting config until_stop until_stop
