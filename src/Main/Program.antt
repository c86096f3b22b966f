-- ===== src/Main/Program.antt =====
-- `main` of main.go: what the program does, in order, and how it ends.
pub mod Closing
mod Tests
use xray_exporter.Common.{
  ℕ, ◌*◌, Bool, true, false, Option, none, some, List, [], ◌∷◌, ◌++◌, if◌then◌else◌,
}
use xray_exporter.Common.Sort.{Sorting}
use xray_exporter.Text.{Text, codes}
use xray_exporter.Snapshot.Disk.{Codec, ReadOutcome}
use xray_exporter.Snapshot.Store.{older}
use xray_exporter.Snapshot.Service.{second}
use xray_exporter.Exporter.Setup.{Outside, Exporter, Resource, new_exporter, close}
use xray_exporter.Main.{
  Level, configure_logging, log_time_window, Options, Settings, settings, Started, disabled, fatal,
  running, start_billing,
}
use xray_exporter.Main.Server.{Route, new_server}
use xray_exporter.Main.Server.Mux.{ServeMux}

-- The flags; the timeout is in seconds and the window in minutes.
pub record Flags : Type 0 where
  pub listen : Text
  pub metrics_path : Text
  pub xray_endpoint : Text
  pub scrape_timeout : ℕ
  pub user_traffic_metrics : Bool
  pub log_path : Text
  pub log_time_window : ℕ
  pub geoip_dir : Text
  pub version : Bool
  pub log_level : Text
  pub billing : Options

-- What `flags.Parse` answers.
pub data Parsed : Type 0 where
  parsed : Flags → Parsed
  help parse_error : Parsed

-- What ends the wait of main: the server's error, or a signal, with what `Shutdown` answers.
pub data Wait : Type 0 where
  server_error : Wait
  signalled : (shut_down : Bool) → Wait

-- What is outside of main.
pub record Startup : Type 0 where
  pub parse_flags : Parsed
  pub log_level : Text  -- LOG_LEVEL
  pub variables : Options
  pub unicode_lower : ℕ → ℕ
  pub parse_duration : Text → Option ℕ
  pub outside : Outside
  pub sorting : Sorting older
  pub codec : Codec
  pub stored : ReadOutcome
  pub mux : ServeMux
  pub wait : Wait

-- What main does; `DownloadDB` may fail, which is only logged.
pub data Action : Type 0 where
  set_level : Level → Action
  print_banner : Action
  download_databases : Text → Action
  make_exporter : Action
  run_loop : (interval : ℕ) → Action
  listen_and_serve : Text → Action
  shut_down : Action
  close_exporter : List Resource → Action

-- A return, `os.Exit` by a fatal log line, and a panic; deferred calls run on the first and the last.
pub data Ending : Type 0 where
  ended exited panicked : Ending

-- The token of the snapshot API, which is served if billing runs.
unfoldable pub api_token : Settings → Started → Option Text
api_token s disabled = none
api_token s (fatal e) = none
api_token s (running service client pusher) = some s.internal_service_token

-- The wait, and the shutdown after a signal.
wait_actions : Wait → List Action
wait_actions server_error = []
wait_actions (signalled done) = shut_down ∷ []

serve : Text → Wait → Option (Text → Option Route) → List Action × Ending
unfolding wait_actions
serve listen wait none = ([], panicked)
serve listen wait (some server) = (listen_and_serve listen ∷ wait_actions wait, ended)

-- The loop's goroutine; an interval that is not positive is a minute there.
loop_actions : Settings → Started → List Action
loop_actions s disabled = []
loop_actions s (fatal e) = []
loop_actions s (running service client pusher) = run_loop s.snapshot_interval ∷ []

is_fatal : Started → Bool
is_fatal disabled = false
is_fatal (fatal e) = true
is_fatal (running service client pusher) = false

-- From the billing on; the store's error exits.
unfoldable pub bill_and_serve : Startup → Flags → Settings → Started → List Action × Ending
unfolding serve loop_actions is_fatal api_token
bill_and_serve w f s started =
    let (actions, ending) =
      serve f.listen w.wait (new_server w.mux f.metrics_path (api_token s started)) in
    if is_fatal started then ([], exited) else (loop_actions s started ++ actions, ending)

-- The deferred `exporter.Close`.
unfoldable pub deferred_close : Exporter → List Action × Ending → List Action × Ending
deferred_close e (actions, ended) = (actions ++ close_exporter (close e) ∷ [], ended)
deferred_close e (actions, panicked) = (actions ++ close_exporter (close e) ∷ [], panicked)
deferred_close e (actions, exited) = (actions, exited)

abbrev pub after : List Action → List Action × Ending → List Action × Ending
after before (actions, ending) = (before ++ actions, ending)

unfoldable pub with_exporter : Startup → Flags → Option Exporter → List Action × Ending
unfolding bill_and_serve deferred_close
with_exporter w f none = ([], exited)
with_exporter w f (some e) =
    let s = settings w.parse_duration f.billing w.variables in
    let started = start_billing w.sorting w.codec w.stored s (f.scrape_timeout * second) in
    after (make_exporter ∷ []) (deferred_close e (bill_and_serve w f s started))

unfoldable pub exporter_of : Startup → Flags → Option Exporter
exporter_of w f =
    new_exporter w.outside f.user_traffic_metrics f.log_path (log_time_window f.log_time_window)

with_flags : Startup → Flags → List Action × Ending
unfolding with_exporter exporter_of
with_flags w f =
    after
      (set_level (configure_logging w.unicode_lower f.log_level w.log_level) ∷ print_banner ∷ [])
      (if f.version
        then ([], ended)
        else after (download_databases f.geoip_dir ∷ []) (with_exporter w f (exporter_of w f)))

main_of : Startup → Parsed → List Action × Ending
unfolding with_flags
main_of w help = ([], ended)
main_of w parse_error = ([], exited)
main_of w (parsed f) = with_flags w f

unfoldable pub main : Startup → List Action × Ending
unfolding main_of
main w = main_of w w.parse_flags
