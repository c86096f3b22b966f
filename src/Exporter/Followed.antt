-- ===== src/Exporter/Followed.antt =====
-- What a scrape exports of a log that has been followed: the exporter, its parser and `Collect` together.
mod Tests
use mathlib.Core.List.{Mem}
use mathlib.Core.Option.{some-injective}
use xray_exporter.Common.{
  All, ℕ, zero, suc, ◌≤◌, ◌<◌, ◌^◌, ◌≡◌, ◌≢◌, refl, ap, sym, subst, ◌∙◌, inl, inr, Bool, true,
  false, Option, none, some, List, [], ◌∷◌, ◌++◌, arith, length, Bool-cases,
}
use xray_exporter.Common.Int64.{add64}
use xray_exporter.Common.Float64.{whole, float_of_int64-small}
use xray_exporter.Common.Sort.{Sorting}
use xray_exporter.LogParser.Counts.{more_often}
use xray_exporter.Exporter.Metrics.{top_n}
use xray_exporter.Text.{text_eq, Text, codes}
use xray_exporter.GoMap.{text_eq→eq, lookup, Distinct}
use xray_exporter.GoMap.Keys.{has_text}
use xray_exporter.GoMap.Size.{length-le}
use xray_exporter.LogParser.Counts.{CountMaps}
use xray_exporter.LogParser.Counts.Bounds.{IsMaps}
use xray_exporter.LogParser.Metrics.Run.{IsSound, new_metrics-IsSound}
use xray_exporter.LogParser.Batch.{Setting}
use xray_exporter.LogParser.Batch.Tally.{increased}
use xray_exporter.LogParser.Batch.Requested.{
  Kind, of_domains, of_ips, of_outbounds, counts_of, requests, all_known, all_known-requests,
}
use xray_exporter.LogParser.Loop.{Config, Parser, new_parser, start, parse_loop}
use xray_exporter.LogParser.Loop.Core.{parse_loop-core}
use xray_exporter.LogParser.Loop.Growing.{Move, events_of, written}
use xray_exporter.LogParser.Loop.Exact.{tracked, log_lines}
use xray_exporter.LogParser.Ring.{Time}
use xray_exporter.LogParser.Loop.Whole.{last_pass, parse_loop-exact}
use xray_exporter.Exporter.Setup.{Outside, Exporter, new_exporter, parser_of}
use xray_exporter.Exporter.Metrics.{Metric}
use xray_exporter.Exporter.Collect.{Scrape, collect}
use xray_exporter.Exporter.Collect.Quiet.{NeedsUtf8, all_keys, labels_of_counts}
use xray_exporter.Exporter.Collect.Series.{series_of, mem-collect, all_keys-top_n}

increased-none : (n : ℕ) → 0 < n → n < 2 ^ 64 → increased none n ≡ some n
increased-none zero h k = absurd (omega arith)
increased-none (suc n) h k = ap some (omega arith)

counts_of-Distinct : (kind : Kind) (m : CountMaps) → IsMaps m → Distinct (counts_of kind m)
counts_of-Distinct of_domains m v = v.domains
counts_of-Distinct of_ips m v = v.ips
counts_of-Distinct of_outbounds m v = v.outbounds

abbrev config_of : Outside → Text → ℕ → Config
config_of o log_path window = record {
  log_path = log_path;
  time_window = window;
  readers = o.databases;
}

-- The parser of an exporter is a started one.
parser_of-start :
    (o : Outside) (log_path : Text) (window : ℕ) (p : Parser)
    → parser_of o log_path window ≡ some p
    → p ≡ start (new_parser o.setting (config_of o log_path window))
unfolding parser_of
parser_of-start o log_path window p h = ground arith

abbrev parser_in : Option Exporter → Option Parser
parser_in none = none
parser_in (some e) = e.log_parser

new_exporter-start :
    (o : Outside) (user : Bool) (log_path : Text) (window : ℕ) (e : Exporter) (p : Parser)
    → new_exporter o user log_path window ≡ some e
    → e.log_parser ≡ some p
    → p ≡ start (new_parser o.setting (config_of o log_path window))
unfolding new_exporter
new_exporter-start o user log_path window e p made has = elim (Bool-cases o.client_ok) [
  | inr failed ↦ absurd (cc (made, failed))
  | inl ok ↦
      let made_of = ap parser_in (rw ok at made) in
      parser_of-start o log_path window p (made_of ∙ has)
]

-- The names that the lines ask for are among the known ones.
abbrev AreKnown : Setting → (Kind → List Text) → List Text → Type 0
AreKnown s known lines = (j : Kind) → all_known j s (known j) lines ≡ true

module _ (valid : Text → Bool) (t : Setting) (known : Kind → List Text)
    (few : (j : Kind) → length (known j) ≤ tracked j)
    (utf8 : (j : Kind) → All (λ k. valid k ≡ true) (known j)) where
  has_text-valid :
      (k : Text) (names : List Text)
      → All (λ n. valid n ≡ true) names
      → has_text k names ≡ true
      → valid k ≡ true
  has_text-valid k [] v h = absurd (ground arith)
  has_text-valid k (n ∷ names) v h = elim (Bool-cases (text_eq n k)) [
    | inl e ↦ ap valid (sym (text_eq→eq n k e)) ∙ v.0
    | inr e ↦ has_text-valid k names v.1 (rw e at h)
  ]

  -- What a map holds after the last pass is known.
  module _ (kind : Kind) (lines : List Text) (named : AreKnown t known lines) (m : CountMaps)
      (exact : (k : Text)
        → lookup k (counts_of kind m) ≡ increased none (requests kind t k lines)) where
    counted-known : (k : Text) → lookup k (counts_of kind m) ≢ none → has_text k (known kind) ≡ true
    counted-known k there =
        all_known-requests kind t (known kind) lines k (named kind)
          (λ zero_of. there (exact k ∙ ap (increased none) zero_of))

    few_keys : IsMaps m → length (counts_of kind m) ≤ tracked kind
    few_keys maps =
        let fit =
          length-le (counts_of kind m) (known kind) (counts_of-Distinct kind m maps)
            counted-known in
        omega (arith, few kind, fit)

    utf8_keys :
        (sorting : Sorting more_often) (n : ℕ)
        → all_keys valid (top_n sorting (counts_of kind m) n) ≡ true
    utf8_keys sorting n =
        all_keys-top_n valid sorting (counts_of kind m) n
          (λ k there. has_text-valid k (known kind) (utf8 kind) (counted-known k there))

-- After the last pass the series of a name has the number of lines that ask for it.
abbrev Exported : Kind → ℕ → List Move → Time → Scrape → ℕ → Text → Parser → Type 0
Exported kind inode moves now s total k first =
    (p : Parser) × (parse_loop s.sorting (events_of inode [] (moves ++ last_pass now)) first
      ≡ some p)
    × Mem
        (series_of kind k (whole false (requests kind first.setting k (log_lines (written moves)))))
        (collect (record s { counts = some p.metrics.counts }) (some p.metrics) total).sent

start-Exported :
    (valid : Text → Bool) (t : Setting) (config : Config) (kind : Kind) (inode : ℕ)
    (known : Kind → List Text) (moves : List Move) (now : Time) (s : Scrape) (total : ℕ) (k : Text)
    → ((j : Kind) → length (known j) ≤ tracked j)
    → ((j : Kind) → All (λ n. valid n ≡ true) (known j))
    → NeedsUtf8 valid s.accepts (codes "requested_domain_ip_total") (codes "target")
    → NeedsUtf8 valid s.accepts (codes "outbound_requests_total") (codes "outbound")
    → let first = start (new_parser t config) in
      AreKnown first.setting known (log_lines (written moves))
      → 0 < requests kind first.setting k (log_lines (written moves))
      → requests kind first.setting k (log_lines (written moves)) < 2 ^ 53
      → Exported kind inode moves now s total k first
unfolding start new_parser
start-Exported valid t config kind inode known moves now s total k few utf8 targets outbounds named
      asked small =
    let first = start (new_parser t config) in
    let events = events_of inode [] (moves ++ last_pass now) in
    let lines = log_lines (written moves) in
    let (p, run', sound, same) =
      parse_loop-core s.sorting events first (new_metrics-IsSound s.sorting config.time_window) in
    let m = p.metrics.counts in
    let exact : (j : Kind) (n : Text)
        → lookup n (counts_of j m) ≡ increased none (requests j first.setting n lines) =
      λ j n.
        let (q, run, counts) =
          parse_loop-exact s.sorting j t config inode (known j) moves now (few j) (named j) in
        ap (λ (x : Parser). lookup n (counts_of j x.metrics.counts))
          (some-injective p q (sym run' ∙ run))
        ∙ counts n in
    let utf8_of : (j : Kind) (n : ℕ) → all_keys valid (top_n s.sorting (counts_of j m) n) ≡ true =
      λ j n. utf8_keys valid first.setting known few utf8 j lines named m (exact j) s.sorting n in
    let counted_labels : labels_of_counts valid s (some m) ≡ true =
      rw (utf8_of of_domains 20, utf8_of of_ips 20, utf8_of of_outbounds 10) refl in
    let n = requests kind first.setting k lines in
    (
      p,
      run',
      subst
          (λ v.
            Mem (series_of kind k v)
              (collect (record s { counts = some m }) (some p.metrics) total).sent)
          (float_of_int64-small n small)
          (mem-collect valid (record s { counts = some m }) targets outbounds kind k n m p.metrics
            total refl sound counted_labels
            (few_keys valid first.setting known few utf8 kind lines named m (exact kind) sound.maps)
            (exact kind k ∙ increased-none n asked (omega arith))),
    )

-- For an exporter that has a log parser, on a log that is only appended to, through any writes,
-- passes, checks, trims and scrapes, and a last pass that reads the log: the next `Collect`, while
-- nothing else is counted, sends for each target or outbound that complete lines of the log ask
-- for the number of these lines. That number is below 2 ^ 53; the log asks for at most 20 domains,
-- 20 addresses and 10 outbounds, all of them UTF-8; and of the labels of the two request metrics
-- NewConstMetric accepts exactly those that are UTF-8.
pub collect-requests :
    (valid : Text → Bool) (o : Outside) (user : Bool) (log_path : Text) (window : ℕ) (e : Exporter)
    (first : Parser) (kind : Kind) (inode : ℕ) (known : Kind → List Text) (moves : List Move)
    (now : Time) (s : Scrape) (total_scrapes : ℕ) (k : Text)
    → new_exporter o user log_path window ≡ some e
    → e.log_parser ≡ some first
    → ((j : Kind) → length (known j) ≤ tracked j)
    → ((j : Kind) → All (λ n. valid n ≡ true) (known j))
    → ((j : Kind) → all_known j first.setting (known j) (log_lines (written moves)) ≡ true)
    → NeedsUtf8 valid s.accepts (codes "requested_domain_ip_total") (codes "target")
    → NeedsUtf8 valid s.accepts (codes "outbound_requests_total") (codes "outbound")
    → 0 < requests kind first.setting k (log_lines (written moves))
    → requests kind first.setting k (log_lines (written moves)) < 2 ^ 53
    → (p : Parser) × (parse_loop s.sorting (events_of inode [] (moves ++ last_pass now)) first
        ≡ some p)
      × Mem
          (series_of kind k
            (whole false (requests kind first.setting k (log_lines (written moves)))))
          (collect
            (record s { counts = some p.metrics.counts })
            (some p.metrics)
            total_scrapes).sent
collect-requests valid o user log_path window e first kind inode known moves now s total k made has
      few utf8 named targets outbounds asked small =
    let config = config_of o log_path window in
    subst
      (λ (p : Parser).
        AreKnown p.setting known (log_lines (written moves))
        → 0 < requests kind p.setting k (log_lines (written moves))
        → requests kind p.setting k (log_lines (written moves)) < 2 ^ 53
        → Exported kind inode moves now s total k p)
      (sym (new_exporter-start o user log_path window e first made has))
      (start-Exported valid o.setting config kind inode known moves now s total k few utf8 targets
        outbounds)
      named asked small
