-- ===== src/Main.antt =====
-- main.go: the settings that the flags and the environment give, and the loop that collects and pushes
-- the billing snapshots.
pub mod Ticks
pub mod Ready
pub mod Server
pub mod Program
pub mod Served
pub mod Delivered
pub mod Tests
use xray_exporter.Common.{
  ℕ, ◌*◌, Bool, true, false, ◌&&◌, not, ◌==◌, Option, none, some, List, [], ◌∷◌, ◌++◌, leb,
  if◌then◌else◌,
}
use xray_exporter.Text.{Text, codes, text_eq, to_lower, trim_space}
use xray_exporter.Common.Sort.{Sorting}
use xray_exporter.GoMap.{GoMap}
use xray_exporter.Snapshot.Types.{RawCounter, Identity, Snapshot}
use xray_exporter.Snapshot.Normalize.{is_blank}
use xray_exporter.Snapshot.Disk.{Codec, Files, ReadOutcome, StoreError}
use xray_exporter.Snapshot.Store.{Store, Loaded, opened, failed, older, new_store}
use xray_exporter.Snapshot.Service.{
  Service, World, Fetched, fetched, fetch_failed, second, new_service, Collected, collected,
  collect_failed, collect,
}
use xray_exporter.Snapshot.Identities.{
  AccountsClient, AccountsNet, new_accounts_client, fetch_identities,
}
use xray_exporter.Snapshot.Push.{Pusher, Post, VectorNet, new_pusher, push}
use xray_exporter.Exporter.Retry.{
  Endpoint, Retried, answered, call_failed, cancelled, exceeded, call_with_retry,
}
use xray_exporter.Exporter.Metrics.{Stat, traffic_counters}
use xray_exporter.LogParser.Metrics.{minute}

pub data Level : Type 0 where
  error_level warn_level info_level debug_level : Level

unfoldable pub or_text : Text → Text → Text
or_text [] t = t
or_text (c ∷ s) t = c ∷ s

level_of : Text → Level
level_of s =
    if text_eq s (codes "error")
    then error_level
    else if text_eq s (codes "warn")
    then warn_level
    else if text_eq s (codes "info")
    then info_level
    else if text_eq s (codes "debug")
    then debug_level
    else warn_level

-- `configureLogging`, with the flag and the variable LOG_LEVEL.
unfoldable pub configure_logging : (ℕ → ℕ) → Text → Text → Level
unfolding level_of or_text
configure_logging unicode_lower flag env =
    level_of (to_lower unicode_lower (or_text flag (or_text env (codes "warn"))))

-- `firstNonEmpty`
unfoldable pub first_non_empty : List Text → Text
first_non_empty [] = []
first_non_empty (value ∷ values) =
    if is_blank (trim_space value) then first_non_empty values else trim_space value

-- `parseDuration`; `parse` is time.ParseDuration, with 0 for a duration that is not positive.
unfoldable pub parse_duration : (Text → Option ℕ) → Text → ℕ → ℕ
parse_duration parse value fallback =
    if is_blank (trim_space value) then fallback else elim (parse value) [
      | none ↦ fallback
      | some parsed ↦ if leb parsed 0 then fallback else parsed
    ]

-- DefaultLogTimeWindowMinutes
abbrev pub default_log_time_window_minutes : ℕ
default_log_time_window_minutes = 5

-- The window of the log parser; the flag's default is 0.
unfoldable pub log_time_window : ℕ → ℕ
log_time_window minutes =
    if minutes == 0 then default_log_time_window_minutes * minute else minutes * minute

-- The flags of billing, or the environment variables in their place.
pub record Options : Type 0 where
  pub node_id : Text
  pub environment : Text
  pub accounts_base_url : Text
  pub internal_service_token : Text
  pub snapshot_store_path : Text
  pub snapshot_retention : Text
  pub snapshot_interval : Text
  pub vector_snapshot_url : Text

pub record Settings : Type 0 where
  pub node_id : Text
  pub environment : Text
  pub accounts_base_url : Text
  pub internal_service_token : Text
  pub snapshot_store_path : Text
  pub snapshot_retention : ℕ
  pub snapshot_interval : ℕ
  pub vector_snapshot_url : Text

unfoldable pub settings : (Text → Option ℕ) → Options → Options → Settings
unfolding first_non_empty parse_duration or_text
settings parse flags env = record {
  node_id = first_non_empty (flags.node_id ∷ env.node_id ∷ []);
  environment = first_non_empty (flags.environment ∷ env.environment ∷ codes "uat" ∷ []);
  accounts_base_url = first_non_empty (flags.accounts_base_url ∷ env.accounts_base_url ∷ []);
  internal_service_token =
      first_non_empty (flags.internal_service_token ∷ env.internal_service_token ∷ []);
  snapshot_store_path =
      or_text (first_non_empty (flags.snapshot_store_path ∷ env.snapshot_store_path ∷ []))
        (codes "/var/lib/xray-exporter/snapshots.json");
  snapshot_retention =
      parse_duration parse
        (first_non_empty (flags.snapshot_retention ∷ env.snapshot_retention ∷ []))
        (72 * (60 * minute));
  snapshot_interval =
      parse_duration parse (first_non_empty (flags.snapshot_interval ∷ env.snapshot_interval ∷ []))
        minute;
  vector_snapshot_url = first_non_empty (flags.vector_snapshot_url ∷ env.vector_snapshot_url ∷ []);
}

-- The service, the accounts client and the pusher that main makes, if the settings name the node, the
-- accounts service and the token; a store that cannot be opened ends the program.
pub data Started : Type 0 where
  disabled : Started
  fatal : StoreError → Started
  running : Service → AccountsClient → Option Pusher → Started

pusher_of : Settings → ℕ → Option Pusher
pusher_of s timeout =
    if is_blank s.vector_snapshot_url
    then none
    else some (new_pusher s.vector_snapshot_url s.internal_service_token timeout)

with_store : Settings → ℕ → Loaded → Started
unfolding pusher_of
with_store s timeout (failed e) = fatal e
with_store s timeout (opened store) =
    running (new_service s.node_id s.environment none none (some store) timeout)
      (new_accounts_client s.accounts_base_url s.internal_service_token) (pusher_of s timeout)

unfoldable pub start_billing : Sorting older → Codec → ReadOutcome → Settings → ℕ → Started
unfolding with_store
start_billing sorting codec outcome s timeout =
    if not (is_blank s.node_id)
      && not (is_blank s.internal_service_token)
      && not (is_blank s.accounts_base_url)
    then with_store s timeout
        (new_store sorting codec s.snapshot_store_path s.snapshot_retention outcome)
    else disabled

-- What one tick of the loop meets: Xray's replies, the accounts service, the clock, sorts and disk,
-- and Vector.
pub record Tick : Type 0 where
  pub stats : Endpoint (List Stat)
  pub accounts : AccountsNet
  pub world : World
  pub vector : VectorNet

-- What the loop has beside the service: the exporter's flag, the accounts client and the pusher.
pub record Billing : Type 0 where
  pub user_traffic : Bool
  pub client : AccountsClient
  pub pusher : Option Pusher

-- What `TrafficCounters` returns.
unfoldable pub counters_of : Bool → Retried (List Stat) → Fetched (List RawCounter)
counters_of user_traffic (answered stats) = fetched (traffic_counters user_traffic stats)
counters_of user_traffic (call_failed e) = fetch_failed (codes "failed to get stats: " ++ e)
counters_of user_traffic (cancelled e) = fetch_failed (codes "failed to get stats: " ++ e)
counters_of user_traffic exceeded =
    fetch_failed (codes "failed to get stats: " ++ codes "max retries exceeded")

abbrev pub source_at : Billing → Tick → ℕ → Fetched (List RawCounter)
source_at b t timeout = counters_of b.user_traffic (call_with_retry t.stats).1

abbrev pub identities_at : Billing → Tick → ℕ → Fetched (GoMap Identity)
identities_at b t = fetch_identities t.world.unicode_lower t.accounts (some b.client)

-- The exporter and the accounts client as the service's sources.
abbrev pub at_tick : Billing → Tick → Service → Service
at_tick b t s = record s { source = some (source_at b t); identities = some (identities_at b t) }

-- What a collected snapshot is pushed as.
pushed : Billing → Tick → Collected → List Post
pushed b t (collected value) = (push t.vector b.pusher value).0
pushed b t (collect_failed e) = []

-- The service with its store, the files, and what was posted.
pub record Loop : Type 0 where
  pub service : Service
  pub files : Files
  pub posts : List Post

-- `collect` of `runSnapshotLoop`
unfoldable pub collect_and_push : Billing → Tick → Loop → Loop
unfolding pushed
collect_and_push b t l =
    let (service, files, outcome) =
      collect (record t.world { files = l.files }) (at_tick b t l.service) in
    record { service = service; files = files; posts = l.posts ++ pushed b t outcome }

-- `runSnapshotLoop`, over the first collection and those of the ticks.
unfoldable pub run_snapshot_loop : Billing → List Tick → Loop → Loop
unfolding collect_and_push
run_snapshot_loop b [] l = l
run_snapshot_loop b (t ∷ ticks) l = run_snapshot_loop b ticks (collect_and_push b t l)
