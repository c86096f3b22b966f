-- ===== src/Exporter/Setup.antt =====
-- `NewExporterWithLogConfig` and `Close` of exporter.go: what the exporter has, and what it gives back.
use xray_exporter.Common.{
  ℕ, Bool, ◌||◌, Option, none, some, List, [], ◌∷◌, ◌++◌, map, if◌then◌else◌,
}
use xray_exporter.Text.{Text, codes, text_eq, is_empty}
use xray_exporter.LogParser.Loop.{Parser, new_parser, start, stop}
use xray_exporter.LogParser.Batch.{Readers, Setting}
use xray_exporter.Exporter.Metrics.{metric_descriptions}

-- What is outside: whether `grpc.NewClient` makes a connection, what `geoip2.Open` makes of each
-- database, whether `os.Stat` finds the log, and what its lines are read with.
pub record Outside : Type 0 where
  pub client_ok : Bool
  pub databases : Readers
  pub log_found : Bool
  pub setting : Setting

-- The fields of an `Exporter` that the construction decides; a connection is there in each.
pub record Exporter : Type 0 where
  pub readers : Readers
  pub log_parser : Option Parser
  pub log_time_window : ℕ
  pub user_traffic : Bool
  pub total_scrapes : ℕ

-- A log path that is "" or "disabled", or a file that is not there, leaves the log parser nil; any
-- other starts one.
unfoldable pub parser_of : Outside → Text → ℕ → Option Parser
parser_of o log_path log_time_window =
    if is_empty log_path || text_eq log_path (codes "disabled")
    then none
    else if o.log_found
    then some (
        start (
          new_parser o.setting
            (record { log_path = log_path; time_window = log_time_window; readers = o.databases })))
    else none

-- `NewExporterWithLogConfig`; `none` is its error.
unfoldable pub new_exporter : Outside → Bool → Text → ℕ → Option Exporter
unfolding parser_of
new_exporter o user_traffic log_path log_time_window =
    if o.client_ok
    then some (record {
      readers = o.databases;
      log_parser = parser_of o log_path log_time_window;
      log_time_window = log_time_window;
      user_traffic = user_traffic;
      total_scrapes = 0;
    })
    else none

-- The names that `Describe` sends.
abbrev pub described : List Text
described =
    map (λ (d : Text × List Text). d.0) metric_descriptions
    ++ codes "scrapes_total" ∷ codes "requested_domain_ip_total" ∷ []

-- What `Close` closes; the log parser as `Stop` leaves it.
pub data Resource : Type 0 where
  stopped : Parser → Resource
  asn_reader city_reader country_reader connection : Resource

stop_parser : Option Parser → List Resource
stop_parser none = []
stop_parser (some p) = stopped (stop p) ∷ []

unless_nil {ℓ} : {A : Type ℓ} → Option A → Resource → List Resource
unless_nil none r = []
unless_nil (some a) r = r ∷ []

unfoldable pub close : Exporter → List Resource
unfolding unless_nil stop_parser
close e =
    stop_parser e.log_parser
    ++ unless_nil e.readers.asn_reader asn_reader
    ++ unless_nil e.readers.city_reader city_reader
    ++ unless_nil e.readers.country_reader country_reader
    ++ connection ∷ []
