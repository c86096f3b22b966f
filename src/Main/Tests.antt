-- ===== src/Main/Tests.antt =====
-- Runs of the settings, and of the loop over two ticks.
pub mod Data
use xray_exporter.Common.{
  ℕ, ◌*◌, ◌<◌, Option, ◌≡◌, refl, true, none, some, List, [], ◌∷◌, ◌++◌, map,
}
use xray_exporter.Text.{Text, codes}
use xray_exporter.Snapshot.Identities.{AccountsNet, answer}
use xray_exporter.Snapshot.Push.{Post}
use xray_exporter.Snapshot.Tests.Data.{alice, world, service, store}
use xray_exporter.Exporter.Retry.{Reply, replied, call_error}
use xray_exporter.Exporter.Metrics.{Stat}
use xray_exporter.Main.{
  Options, settings, Started, disabled, fatal, running, start_billing, debug_level, warn_level,
  info_level, configure_logging, first_non_empty, parse_duration, Tick, Billing, Loop,
  run_snapshot_loop,
}
use xray_exporter.Snapshot.Disk.{not_exist}
use xray_exporter.LogParser.Metrics.{minute}
use xray_exporter.Main.Ready.{IsReady, start_billing-IsReady}
use xray_exporter.Main.Ticks.{stored_after, run_snapshot_loop-stored_after}
use xray_exporter.Main.Delivered.{RunPosts, run_snapshot_loop-RunPosts}
use xray_exporter.Main.Tests.Data.{ticks, billing, no_options, flags, variables, hour_for_all}

levels :
    configure_logging (λ c. c) (codes "DEBUG") []
      ∷ configure_logging (λ c. c) [] (codes "info")
      ∷ configure_logging (λ c. c) (codes "loud") (codes "info")
      ∷ configure_logging (λ c. c) [] []
      ∷ []
    ≡ debug_level ∷ info_level ∷ warn_level ∷ warn_level ∷ []
unfolding configure_logging xray_exporter.Text.text_eq xray_exporter.Text.to_lower
levels = refl

first : first_non_empty (codes "  " ∷ codes " node " ∷ codes "other" ∷ []) ≡ codes "node"
unfolding first_non_empty xray_exporter.Text.trim_space
first = refl

durations : parse_duration (λ t. some 0) (codes "-5s") 60 ≡ 60
unfolding parse_duration xray_exporter.Text.trim_space
durations = refl

abbrev start : Loop
start = record { service = service; files = world.files; posts = [] }

run_snapshot_loop-stored_after_example :
    (run_snapshot_loop billing ticks start).service.store
    ≡ some (stored_after billing service.node_id service.env service.timeout ticks store)
run_snapshot_loop-stored_after_example =
    run_snapshot_loop-stored_after billing ticks start store refl

node_of : Started → Text
node_of disabled = []
node_of (fatal e) = []
node_of (running service client pusher) = service.node_id

start_run :
    node_of (
      start_billing world.sort_snapshots world.codec not_exist
        (settings hour_for_all flags variables)
        5)
    ≡ codes "n1"
unfolding node_of start_billing settings xray_exporter.Text.trim_space
    xray_exporter.Snapshot.Store.new_store xray_exporter.Snapshot.Service.new_service
start_run = refl

off_run :
    start_billing world.sort_snapshots world.codec not_exist
      (settings hour_for_all flags no_options)
      5
    ≡ disabled
unfolding start_billing settings xray_exporter.Text.trim_space
off_run = refl

start_billing-IsReady_example :
    (0 < (settings hour_for_all flags variables).snapshot_retention)
    × (0 < (settings hour_for_all flags variables).snapshot_interval)
    × IsReady (
        start_billing world.sort_snapshots world.codec not_exist
          (settings hour_for_all flags variables)
          5)
start_billing-IsReady_example =
    start_billing-IsReady world.sort_snapshots world.codec not_exist hour_for_all flags variables 5

abbrev pushing : Billing
pushing = record billing {
  pusher = some (record { url = codes "http://vector"; token = codes "secret"; timeout = 5 });
}

posts_run :
    map (λ (p : Post). p.body) (run_snapshot_loop pushing ticks start).posts ≡ codes "{}" ∷ []
unfolding run_snapshot_loop xray_exporter.Snapshot.Service.collect xray_exporter.Main.counters_of
    xray_exporter.Exporter.Retry.call_with_retry xray_exporter.Snapshot.Identities.fetch_identities
    xray_exporter.Snapshot.Store.save xray_exporter.Snapshot.Push.push
posts_run = refl

run_snapshot_loop-RunPosts_example :
    (posts : List Post) × RunPosts pushing ticks start posts
    × ((run_snapshot_loop pushing ticks start).posts ≡ [] ++ posts)
run_snapshot_loop-RunPosts_example = run_snapshot_loop-RunPosts pushing ticks start store refl
