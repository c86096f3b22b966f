-- ===== src/LogParser/Loop.antt =====
-- `NewParser`, `Start`, `Stop` and `parseLoop` of internal/logparser/parser.go: the goroutine that
-- follows the log, between the scrapes and the stop that other goroutines call.
pub mod Core
pub mod Exact
pub mod Whole
pub mod Tests
pub mod Growing
pub mod Stopping
use xray_exporter.Common.{ℕ, Bool, true, false, Option, none, some, List, [], ◌∷◌, if◌then◌else◌}
use xray_exporter.Common.Sort.{Sorting}
use xray_exporter.Text.{Text}
use xray_exporter.LogParser.Ring.{Time}
use xray_exporter.LogParser.Counts.{more_often}
use xray_exporter.LogParser.Metrics.{MetricsData, new_metrics}
use xray_exporter.LogParser.Metrics.Run.{scrape, trim, check, operate}
use xray_exporter.LogParser.Follow.{Position, LogFile}
use xray_exporter.LogParser.Batch.{Readers, Setting, pass}

-- Where the goroutine is: not begun, at its `select`, between `parseLogFile` and
-- `checkEmergencyCleanup`, or returned.
pub data Phase : Type 0 where
  created waiting checking returned : Phase

pub record Config : Type 0 where
  pub log_path : Text
  pub time_window : ℕ
  pub readers : Readers

-- `Parser`, with the file's position, which the source keeps in the metrics; `cancelled` is that the
-- context is done.
pub record Parser : Type 0 where
  pub log_path : Text
  pub time_window : ℕ
  pub setting : Setting
  pub position : Position
  pub metrics : MetricsData
  pub cancelled : Bool
  pub phase : Phase

-- `NewParser`; a setting has the answers of the packages and of the filter.
unfoldable pub new_parser : Setting → Config → Parser
new_parser s config = record {
  log_path = config.log_path;
  time_window = config.time_window;
  setting = record s { readers = config.readers };
  position = record { last_pos = 0; last_inode = 0 };
  metrics = new_metrics config.time_window;
  cancelled = false;
  phase = created;
}

-- `Start`
unfoldable pub start : Parser → Parser
start p = record p { phase = waiting }

-- `Stop`
unfoldable pub stop : Parser → Parser
stop p = record p { cancelled = true }

-- The cases of the `select` when they are offered: the context is done, the cleanup ticker, the ticker
-- (with the files at that time); the goroutine's own check after a pass; and what others call.
pub data Event : Type 0 where
  done cleanup_ticked checked stop_called : Event
  ticked : (Text → LogFile) → Time → Event
  scraped : Time → Event

abbrev pub with_metrics : Parser → Option MetricsData → Option Parser
with_metrics p none = none
with_metrics p (some m) = some (record p { metrics = m })

-- After a pass, one with an error too, the check comes next.
abbrev pub parsed : Parser → Option (Position × MetricsData) → Option Parser
parsed p none = none
parsed p (some (position, m)) =
    some (record p { position = position; metrics = m; phase = checking })

module _ (sorting : Sorting more_often) where
  -- What an event does. A case that is offered while the goroutine is elsewhere is not taken, nor is
  -- the context's while it is not done.
  unfoldable pub react : Phase → Event → Parser → Option Parser
  unfolding stop
  react phase stop_called p = some (stop p)
  react phase (scraped now) p =
      with_metrics p (operate sorting p.time_window (scrape now) p.metrics)
  react waiting done p = some (if p.cancelled then record p { phase = returned } else p)
  react waiting cleanup_ticked p = with_metrics p (operate sorting p.time_window trim p.metrics)
  react waiting (ticked disk now) p =
      parsed p (pass p.setting p.time_window now (disk p.log_path) (p.position, p.metrics))
  react checking checked p =
      with_metrics (record p { phase = waiting }) (operate sorting p.time_window check p.metrics)
  react phase e p = some p

  unfoldable pub parse_loop : List Event → Parser → Option Parser
  unfolding react
  parse_loop [] p = some p
  parse_loop (e ∷ es) p = elim (react p.phase e p) [ none ↦ none | some p' ↦ parse_loop es p' ]
