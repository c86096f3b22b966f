-- ===== src/LogParser/Loop/Whole.antt =====
-- The counts of a log that is only appended to, once it is read to its end.
use mathlib.Core.List.{append_assoc, append-nil}
use xray_exporter.Common.{
  ℕ, ◌-◌, ◌≤◌, ◌≡◌, refl, sym, ap, subst, ◌∙◌, inl, true, some, none, List, [], ◌∷◌, ◌++◌, arith,
  length, drop,
}
use xray_exporter.Common.Sort.{Sorting}
use xray_exporter.Text.{Text}
use xray_exporter.GoMap.{lookup, Distinct}
use xray_exporter.LogParser.Ring.{Time}
use xray_exporter.LogParser.Counts.{more_often}
use xray_exporter.LogParser.Metrics.{no_counts, new_metrics}
use xray_exporter.LogParser.Metrics.Run.{new_metrics-IsSound}
use xray_exporter.LogParser.Follow.{raw_lines}
use xray_exporter.LogParser.Follow.Once.{read_pass, parse_log_file-read}
use xray_exporter.LogParser.Batch.{Setting}
use xray_exporter.LogParser.Batch.Tally.{increased, occurrences}
use xray_exporter.LogParser.Batch.Requested.{
  Kind, of_domains, of_ips, of_outbounds, counts_of, requests, all_known, all_known-requests,
}
use xray_exporter.LogParser.Loop.{
  Event, Phase, waiting, Config, Parser, new_parser, start, parse_loop, checked, ticked,
}
use xray_exporter.LogParser.Loop.Core.{Core, core, core_react, core_run, parse_loop-core}
use xray_exporter.LogParser.Loop.Growing.{
  Calls, Move, wrote, passed, rechecked, trimmed, looked, log_file, events_of, written, IsAt,
  read_pass-IsAt,
}
use xray_exporter.LogParser.Loop.Exact.{
  tracked, log_lines, IsLive, IsExact, IsExact-append, IsExact-counted, AllKnown, react-passed,
  react-rechecked, react-trimmed,
}
use xray_exporter.LogParser.Follow.Once.{IsRead}

-- Every call of a pass succeeds.
abbrev pub no_failure : Calls
no_failure = record { open_ok = true; stat_ok = true; seek_ok = true }

-- The check, where it is pending, and a pass that reads.
abbrev pub last_pass : Time → List Move
last_pass now = rechecked ∷ passed no_failure [] now ∷ []

module _ (sorting : Sorting more_often) (kind : Kind) (s : Setting) (inode : ℕ) where
  abbrev Exact : Text → List Text → Core → Type 0
  Exact = IsExact sorting kind s inode

  rechecked-waiting :
      (phase : Phase) (c : Core)
      → c.phase ≡ phase
      → IsLive c.phase
      → (core_react sorting phase checked c).phase ≡ waiting
  unfolding core_react
  rechecked-waiting phase c h live = ground arith

  react-read :
      (phase : Phase) (bytes : Text) (lines : List Text) (c : Core) (now : Time)
      → phase ≡ waiting
      → Exact bytes lines c
      → Exact bytes
          (raw_lines [] bytes)
          (core_react sorting phase (ticked (λ path. log_file inode no_failure bytes []) now) c)
  unfolding core_react
  react-read waiting bytes lines c now h v =
      let file = log_file inode no_failure bytes [] in
      let whole : bytes ++ [] ≡ bytes = append-nil bytes in
      let reads : IsRead file = record {
        open_ok = refl;
        stat_ok = refl;
        seek_ok = refl;
        size = ap length (sym whole);
      } in
      let (handed, at) = read_pass-IsAt inode no_failure bytes [] lines c.position v.place in
      let more = raw_lines [] (drop c.position.last_pos (bytes ++ [])) in
      let all : lines ++ more ≡ raw_lines [] bytes =
        sym (v.place.split []) ∙ ap (raw_lines []) whole in
      let there : IsAt inode bytes (lines ++ more) (read_pass file c.position).0 =
        subst (λ b. IsAt inode b (lines ++ more) (read_pass file c.position).0) whole at in
      rw (parse_log_file-read file c.position reads, handed, ← all)
        (IsExact-counted sorting kind s inode bytes lines more c (now - c.time_window)
          (read_pass file c.position).0 v bytes there)
  react-read phase bytes lines c now h v = absurd (ground arith)

  first-Exact :
      (p : Parser)
      → p.phase ≡ waiting
      → p.setting ≡ s
      → p.position ≡ record { last_pos = 0; last_inode = 0 }
      → p.metrics.counts ≡ no_counts
      → Exact [] [] (core p)
  unfolding lookup requests occurrences
  first-Exact p h same place counts = record {
    live = inl h;
    same = same;
    place = rw place (record { same = inl refl; fits = omega arith; split = λ t. refl });
    distinct = rw counts (none_counted kind).0;
    tally = λ k. rw counts ((none_counted kind).1 k);
  }
    where
      none_counted :
          (j : Kind)
          → Distinct (counts_of j no_counts)
            × ((k : Text) → lookup k (counts_of j no_counts) ≡ none)
      none_counted of_domains = (tt, λ k. refl)
      none_counted of_ips = (tt, λ k. refl)
      none_counted of_outbounds = (tt, λ k. refl)

  module _ (known : List Text) (few : length known ≤ tracked kind) where
    -- The moves keep the counts exact.
    run-IsExact :
        (moves : List Move) (bytes : Text) (lines : List Text) (c : Core)
        → Exact bytes lines c
        → AllKnown kind s known (bytes ++ written moves)
        → (lines' : List Text) × Exact
            (bytes ++ written moves)
            lines'
            (core_run sorting (events_of inode bytes moves) c)
    unfolding core_run events_of written core_react
    run-IsExact [] bytes lines c v all = (lines, rw (append-nil bytes) v)
    run-IsExact (wrote t ∷ moves) bytes lines c v all =
        let next =
          run-IsExact moves (bytes ++ t) lines c
            (IsExact-append sorting kind s inode bytes t lines c v) in
        rw (← append_assoc bytes t (written moves))
          (next (rw (append_assoc bytes t (written moves)) all))
    run-IsExact (passed calls late now ∷ moves) bytes lines c v all =
        let (more, v') =
          react-passed sorting kind s inode known few bytes late lines c v c.phase calls now in
        let next = run-IsExact moves (bytes ++ late) (lines ++ more) _ v' in
        rw (← append_assoc bytes late (written moves))
          (next (rw (append_assoc bytes late (written moves)) all))
    run-IsExact (rechecked ∷ moves) bytes lines c v all =
        run-IsExact moves bytes lines _
          (react-rechecked sorting kind s inode known few bytes (written moves) lines c v c.phase
            all)
          all
    run-IsExact (trimmed ∷ moves) bytes lines c v all =
        run-IsExact moves bytes lines _
          (react-trimmed sorting kind s inode known few bytes (written moves) lines c v c.phase all)
          all
    run-IsExact (looked now ∷ moves) bytes lines c v all = run-IsExact moves bytes lines c v all

  finish :
      (known : List Text) (few : length known ≤ tracked kind) (bytes : Text) (lines : List Text)
      (c : Core) (now : Time)
      → Exact bytes lines c
      → AllKnown kind s known bytes
      → Exact bytes
          (raw_lines [] bytes)
          (core_run sorting (events_of inode bytes (last_pass now)) c)
  unfolding core_run events_of
  finish known few bytes lines c now v all =
      let c1 = core_react sorting c.phase checked c in
      let v1 =
        react-rechecked sorting kind s inode known few bytes [] lines c v c.phase
          (rw (append-nil bytes) all) in
      react-read c1.phase bytes lines c1 now (rechecked-waiting c.phase c refl v.live) v1

events_of-append :
    (inode : ℕ) (bytes : Text) (a b : List Move)
    → events_of inode bytes (a ++ b)
      ≡ events_of inode bytes a ++ events_of inode (bytes ++ written a) b
unfolding events_of written
events_of-append inode bytes [] b = rw (append-nil bytes) refl
events_of-append inode bytes (wrote t ∷ a) b =
    rw (← append_assoc bytes t (written a)) (events_of-append inode (bytes ++ t) a b)
events_of-append inode bytes (passed calls late now ∷ a) b =
    rw (← append_assoc bytes late (written a))
      (rw (events_of-append inode (bytes ++ late) a b) refl)
events_of-append inode bytes (rechecked ∷ a) b = rw (events_of-append inode bytes a b) refl
events_of-append inode bytes (trimmed ∷ a) b = rw (events_of-append inode bytes a b) refl
events_of-append inode bytes (looked now ∷ a) b = rw (events_of-append inode bytes a b) refl

core_run-append :
    (sorting : Sorting more_often) (a b : List Event) (c : Core)
    → core_run sorting (a ++ b) c ≡ core_run sorting b (core_run sorting a c)
unfolding core_run
core_run-append sorting [] b c = refl
core_run-append sorting (e ∷ a) b c = core_run-append sorting a b (core_react sorting c.phase e c)

-- A started parser on a log that is only appended to, through any writes, passes (with calls that
-- fail, or bytes that arrive while a pass runs), checks, trims and scrapes: once a last pass has
-- read the log, each count of the kind is the number of complete lines of the whole log that ask
-- for its key, modulo 2 ^ 64, and keys without one are absent. The log asks for at most 20 domains,
-- 20 addresses or 10 outbounds, whatever else it names.
pub parse_loop-exact :
    (sorting : Sorting more_often) (kind : Kind) (s : Setting) (config : Config) (inode : ℕ)
    (known : List Text) (moves : List Move) (now : Time)
    → length known ≤ tracked kind
    → all_known kind (new_parser s config).setting known (log_lines (written moves)) ≡ true
    → (p : Parser) × (parse_loop sorting
          (events_of inode [] (moves ++ last_pass now))
          (start (new_parser s config))
        ≡ some p)
      × ((k : Text)
          → lookup k (counts_of kind p.metrics.counts)
            ≡ increased none
                (requests kind (new_parser s config).setting k (log_lines (written moves))))
unfolding start new_parser new_metrics
parse_loop-exact sorting kind s config inode known moves now few all =
    let first = start (new_parser s config) in
    let named : AllKnown kind first.setting known (written moves) =
      λ k h. all_known-requests kind first.setting known (log_lines (written moves)) k all h in
    let sound = new_metrics-IsSound sorting config.time_window in
    let (p, run, v, same) =
      parse_loop-core sorting (events_of inode [] (moves ++ last_pass now)) first sound in
    let (lines, exact) =
      run-IsExact sorting kind first.setting inode known few moves [] [] (core first)
        (first-Exact sorting kind first.setting inode first refl refl refl refl) named in
    let c = core_run sorting (events_of inode [] moves) (core first) in
    let last =
      finish sorting kind first.setting inode known few (written moves) lines c now exact named in
    let split =
      ap (λ es. core_run sorting es (core first)) (events_of-append inode [] moves (last_pass now))
      ∙ core_run-append sorting (events_of inode [] moves)
          (events_of inode (written moves) (last_pass now)) (core first) in
    (
      p,
      run,
      λ k. ap (λ (d : Core). lookup k (counts_of kind d.counts)) (same ∙ split) ∙ last.tally k,
    )
