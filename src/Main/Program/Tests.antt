-- ===== src/Main/Program/Tests.antt =====
-- Runs of the program, and of its server.
use mathlib.Core.List.{not-mem-nil, Mem}
use mathlib.Core.Option.{some-injective}
use xray_exporter.Common.{
  ◌*◌, ◌≡◌, ◌≢◌, ◌<◌, ◌⊎◌, ◌↔◌, refl, sym, subst, ◌∙◌, true, false, Option, none, some, List, [],
  ◌∷◌, ◌++◌,
}
use xray_exporter.Text.{Text, codes, text_eq, has_prefix}
use xray_exporter.GoMap.{keys, text_eq_iff}
use xray_exporter.GoMap.Keys.{has_text}
use xray_exporter.Snapshot.Types.{Snapshot}
use xray_exporter.Snapshot.Disk.{not_exist, StoreError}
use xray_exporter.Snapshot.Store.{Store}
use xray_exporter.Snapshot.Service.{Service}
use xray_exporter.Snapshot.Http.{Request, snapshot_body}
use xray_exporter.Snapshot.Identities.{AccountsClient, index_all}
use xray_exporter.Snapshot.Push.{Pusher}
use xray_exporter.Snapshot.Tests.Data.{world, number_texts, store, alice, ascii_lower}
use xray_exporter.Exporter.Retry.{replied, call_error}
use xray_exporter.Exporter.Metrics.{traffic_counters}
use xray_exporter.Main.{
  Started, Settings, running, fatal, start_billing, settings, run_snapshot_loop, Tick,
}
use xray_exporter.Main.Tests.Data.{flags, variables, hour_for_all, tick, stats, billing}
use xray_exporter.Main.Ticks.{arrived_at, tick_snapshot}
use xray_exporter.Main.Served.{latest-served}
use xray_exporter.Main.Server.{Route, found, routes, new_server, answer_of, snapshot_reply}
use xray_exporter.Main.Server.NoLeak.{server-no_leak}
use xray_exporter.Main.Server.Mux.Longest.{longest_mux, longest}
use xray_exporter.Main.Server.Paths.{taken}
use xray_exporter.LogParser.Batch.Tests.Data.{setting}
use xray_exporter.Exporter.Setup.{Outside, Exporter, connection, close}
use xray_exporter.LogParser.Metrics.{minute}
use xray_exporter.Main.Program.{
  main, Flags, parsed, Wait, server_error, signalled, Startup, Action, run_loop, listen_and_serve,
  shut_down, close_exporter, Ending, ended, exited, panicked, exporter_of, api_token,
}
use xray_exporter.Main.Program.Closing.{
  first_actions, billing_of, settings_of, main-closes, main-panics_iff,
}

abbrev chosen : Settings
chosen = settings hour_for_all flags variables

abbrev service : Service
service = record {
  node_id = codes "n1";
  env = codes "uat";
  source = none;
  identities = none;
  store = some (record {
    path = codes "/var/lib/xray-exporter/snapshots.json";
    retention = 259200000000000;
    items = [];
  });
  timeout = 5;
}

abbrev client : AccountsClient
client = record { base_url = codes "http://accounts"; token = codes "secret" }

abbrev pusher : Option Pusher
pusher = some (record { url = codes "http://vector"; token = codes "secret"; timeout = 5 })

started_run :
    start_billing world.sort_snapshots world.codec not_exist chosen 5
    ≡ running service client pusher
unfolding start_billing settings xray_exporter.Text.trim_space
    xray_exporter.Snapshot.Store.new_store xray_exporter.Snapshot.Service.new_service
    xray_exporter.Snapshot.Identities.new_accounts_client xray_exporter.Snapshot.Push.new_pusher
started_run = refl

arrived_run :
    arrived_at billing 5 (tick (replied stats))
    ≡ some (traffic_counters true stats, index_all ascii_lower [] (alice ∷ []))
unfolding xray_exporter.Main.counters_of xray_exporter.Exporter.Retry.call_with_retry
    xray_exporter.Snapshot.Identities.fetch_identities
arrived_run = refl

-- The API's token, and the server of the longest match.
abbrev token : Text
token = chosen.internal_service_token

abbrev server : Text → Option Route
server path =
    found (routes (codes "/scrape") (some token))
      (longest (keys (routes (codes "/scrape") (some token))) path)

registered_run : new_server longest_mux (codes "/scrape") (some token) ≡ some server
unfolding new_server longest_mux text_eq
registered_run = refl

abbrev request : Text → Request
request authorization = record {
  path = codes "/v1/snapshots/latest";
  authorization = authorization;
  since = [];
  until = [];
  limit = [];
  cursor = [];
}

abbrev bearer : Request
bearer = request (codes "Bearer " ++ token)

-- Xray is down at the first tick, and answers at the second.
abbrev down : Tick
down = tick (call_error (codes "down"))

first_run :
    (run_snapshot_loop billing
      (down ∷ [])
      (record { service = service; files = world.files; posts = [] })).service.store
    ≡ service.store
unfolding run_snapshot_loop xray_exporter.Snapshot.Service.collect xray_exporter.Main.counters_of
    xray_exporter.Exporter.Retry.call_with_retry
first_run = refl

nothing_stored :
    (before : Store)
    → (run_snapshot_loop billing
        (down ∷ [])
        (record { service = service; files = world.files; posts = [] })).service.store
      ≡ some before
    → (x : Snapshot) → Mem x before.items
    → x.collected_at < world.now
nothing_stored before e x m = absurd (
    not-mem-nil
      (subst (λ (q : Store). Mem x q.items) (some-injective before _ (sym e ∙ first_run)) m))

apart_run : has_prefix (codes "/v1/snapshots/") (codes "/scrape") ≡ false
unfolding has_prefix
apart_run = refl

differ_run : text_eq (codes "Bearer guess") (codes "Bearer " ++ token) ≡ false
unfolding text_eq settings xray_exporter.Text.trim_space
differ_run = refl

guessed : (u : Text) → some token ≡ some u → codes "Bearer guess" ≢ codes "Bearer " ++ u
unfolding settings
guessed u same h =
    let wrong : text_eq (codes "Bearer guess") (codes "Bearer " ++ token) ≡ true =
      rw (some-injective token u same)
        ((text_eq_iff (codes "Bearer guess") (codes "Bearer " ++ u)).1 h) in
    cc (wrong, differ_run)

latest-served_example :
    (after : Store) × ((run_snapshot_loop billing
        ((down ∷ []) ++ tick (replied stats) ∷ [])
        (record { service = service; files = world.files; posts = [] })).service.store
      ≡ some after)
    × (answer_of (codes "dev") (codes "/scrape") number_texts 40 after (server bearer.path) bearer
        ≡ snapshot_reply (record {
          status = 200;
          body = snapshot_body (
              tick_snapshot service.node_id service.env
                (tick (replied stats))
                (traffic_counters true stats, index_all ascii_lower [] (alice ∷ [])));
        }))
latest-served_example =
    latest-served longest_mux (codes "/scrape") (codes "dev") world.sort_snapshots world.codec
      not_exist chosen 5 service client pusher server billing world.files (down ∷ [])
      (tick (replied stats)) (traffic_counters true stats) (index_all ascii_lower [] (alice ∷ []))
      number_texts 40 bearer started_run refl apart_run registered_run arrived_run nothing_stored
      refl refl

server-no_leak_example :
    answer_of
      (codes "dev")
      (codes "/scrape")
      number_texts
      40
      store
      (server (request (codes "Bearer guess")).path)
      (request (codes "Bearer guess"))
    ≡ answer_of
        (codes "dev")
        (codes "/scrape")
        number_texts
        40
        (record store { items = [] })
        (server (request (codes "Bearer guess")).path)
        (request (codes "Bearer guess"))
server-no_leak_example =
    server-no_leak (codes "/scrape") (codes "dev") number_texts 40 (request (codes "Bearer guess"))
      longest_mux (some token) server store (record store { items = [] }) registered_run guessed

abbrev outside : Outside
outside = record {
  client_ok = true;
  databases = record { asn_reader = none; country_reader = none; city_reader = none };
  log_found = false;
  setting = setting;
}

-- Flags with a metrics path.
abbrev with_path : Text → Flags
with_path path = record {
  listen = codes ":9550";
  metrics_path = path;
  xray_endpoint = codes "127.0.0.1:8080";
  scrape_timeout = 5;
  user_traffic_metrics = true;
  log_path = [];
  log_time_window = 0;
  geoip_dir = codes ".";
  version = false;
  log_level = codes "info";
  billing = flags;
}

abbrev startup : Text → Wait → Startup
startup path wait = record {
  parse_flags = parsed (with_path path);
  log_level = [];
  variables = variables;
  unicode_lower = ascii_lower;
  parse_duration = hour_for_all;
  outside = outside;
  sorting = world.sort_snapshots;
  codec = world.codec;
  stored = not_exist;
  mux = longest_mux;
  wait = wait;
}

abbrev exporter : Exporter
exporter = record {
  readers = outside.databases;
  log_parser = none;
  log_time_window = 5 * minute;
  user_traffic = true;
  total_scrapes = 0;
}

made_run :
    (path : Text) (wait : Wait) → exporter_of (startup path wait) (with_path path) ≡ some exporter
unfolding exporter_of xray_exporter.Exporter.Setup.new_exporter xray_exporter.Main.log_time_window
made_run path wait = refl

-- A signal ends a program that serves.
stopped_run : main (startup (codes "/scrape") (signalled true)) ≡ (
  first_actions (startup (codes "/scrape") (signalled true)) (with_path (codes "/scrape"))
      ++ run_loop minute
        ∷ listen_and_serve (codes ":9550")
        ∷ shut_down
        ∷ close_exporter (connection ∷ [])
        ∷ [],
  ended,
)
unfolding main xray_exporter.Exporter.Setup.new_exporter start_billing settings
    xray_exporter.Text.trim_space xray_exporter.Snapshot.Store.new_store new_server longest_mux
    text_eq close
stopped_run = refl

main-closes_example :
    ((err : StoreError) × (billing_of
          (startup (codes "/scrape") server_error)
          (with_path (codes "/scrape"))
        ≡ fatal err)
      × (main (startup (codes "/scrape") server_error) ≡ (
        first_actions (startup (codes "/scrape") server_error) (with_path (codes "/scrape")),
        exited,
      )))
    ⊎ ((before : List Action) × (ending : Ending) × (ending ≢ exited)
        × (main (startup (codes "/scrape") server_error)
            ≡ (before ++ close_exporter (close exporter) ∷ [], ending)))
main-closes_example =
    main-closes (startup (codes "/scrape") server_error) (with_path (codes "/scrape")) exporter refl
      refl (made_run (codes "/scrape") server_error)

never_fatal :
    (path : Text) (err : StoreError)
    → billing_of (startup path server_error) (with_path path) ≢ fatal err
unfolding start_billing settings xray_exporter.Text.trim_space
    xray_exporter.Snapshot.Store.new_store
never_fatal path err h = cc

main-panics_iff_example : ((main (startup (codes "/metrics") server_error)).1 ≡ panicked) ↔ (
    has_text (codes "/metrics") (
      taken (
        api_token
          (settings_of (startup (codes "/metrics") server_error) (with_path (codes "/metrics")))
          (billing_of (startup (codes "/metrics") server_error) (with_path (codes "/metrics")))))
    ≡ true)
main-panics_iff_example =
    main-panics_iff (startup (codes "/metrics") server_error) (with_path (codes "/metrics"))
      exporter refl refl (made_run (codes "/metrics") server_error) refl
      (never_fatal (codes "/metrics"))
