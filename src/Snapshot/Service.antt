-- ===== src/Snapshot/Service.antt =====
-- `Service` of internal/snapshot/service.go: one collection, from the counters to the stored snapshot.
pub mod Collect
pub mod Arrived
pub mod Reported
use xray_exporter.Common.{
  ℕ, ◌*◌, Bool, true, false, Option, none, some, List, [], ◌∷◌, leb, if◌then◌else◌,
}
use xray_exporter.Common.Sort.{Sorting}
use xray_exporter.Text.{Text, text_less, trim_space}
use xray_exporter.GoMap.{GoMap}
use xray_exporter.Snapshot.Types.{Time, RawCounter, Identity, Sample, Snapshot}
use xray_exporter.Snapshot.Normalize.{normalize}
use xray_exporter.Snapshot.Disk.{Codec, Files, StoreError, PersistCalls}
use xray_exporter.Snapshot.Store.{Store, older, save}

-- The reply of a source: a value, or an error with its message.
pub data Fetched {ℓ} (A : Type ℓ) : Type ℓ where
  fetched : A → Fetched A
  fetch_failed : Text → Fetched A

abbrev pub second : ℕ
second = 1_000_000_000

-- A source is a function of its timeout; a nil interface or pointer is `none`. A timeout that is not
-- positive is 0.
pub record Service : Type 0 where
  pub node_id : Text
  pub env : Text
  pub source : Option (ℕ → Fetched (List RawCounter))
  pub identities : Option (ℕ → Fetched (GoMap Identity))
  pub store : Option Store
  pub timeout : ℕ

unfoldable pub new_service :
    Text
    → Text
    → Option (ℕ → Fetched (List RawCounter))
    → Option (ℕ → Fetched (GoMap Identity))
    → Option Store
    → ℕ
    → Service
new_service node_id env source identities store timeout = record {
  node_id = trim_space node_id;
  env = trim_space env;
  source = source;
  identities = identities;
  store = store;
  timeout = if leb timeout 0 then 10 * second else timeout;
}

pub data CollectError : Type 0 where
  not_configured : CollectError
  source_error identities_error : Text → CollectError
  save_error : StoreError → CollectError

pub data Collected : Type 0 where
  collected : Snapshot → Collected
  collect_failed : CollectError → Collected

-- What surrounds one collection: the clock, the sorts, the case table, the disk.
pub record World : Type 0 where
  pub sort_texts : Sorting text_less
  pub sort_snapshots : Sorting older
  pub unicode_lower : ℕ → ℕ
  pub codec : Codec
  pub now : Time
  pub calls : PersistCalls
  pub files : Files

abbrev pub Outcome : Type 0
Outcome = Service × Files × Collected

-- Collect, once the counters and the identities are there.
saved : Service → Snapshot → Store × (Option StoreError × Files) → Outcome
saved s snapshot (store, (none, files)) =
    (record s { store = some store }, files, collected snapshot)
saved s snapshot (store, (some e, files)) =
    (record s { store = some store }, files, collect_failed (save_error e))

abbrev pub snapshot_of : World → Service → List RawCounter → GoMap Identity → Snapshot
snapshot_of w s counters identities = record {
  collected_at = w.now;
  node_id = s.node_id;
  env = s.env;
  samples = normalize w.sort_texts w.unicode_lower counters identities;
}

store_snapshot : World → Service → Store → List RawCounter → GoMap Identity → Outcome
unfolding saved
store_snapshot w s store counters identities =
    let snapshot = snapshot_of w s counters identities in
    saved s snapshot (save w.sort_snapshots w.codec w.calls store w.files snapshot)

with_identities : World → Service → Store → List RawCounter → Fetched (GoMap Identity) → Outcome
unfolding store_snapshot
with_identities w s store counters (fetched identities) =
    store_snapshot w s store counters identities
with_identities w s store counters (fetch_failed e) =
    (s, w.files, collect_failed (identities_error e))

-- With no identity source the map is empty.
unfoldable pub fetch_identities :
    Option (ℕ → Fetched (GoMap Identity)) → ℕ → Fetched (GoMap Identity)
fetch_identities none timeout = fetched []
fetch_identities (some fetch) timeout = fetch timeout

with_counters : World → Service → Store → Fetched (List RawCounter) → Outcome
unfolding with_identities fetch_identities
with_counters w s store (fetched counters) =
    with_identities w s store counters (fetch_identities s.identities s.timeout)
with_counters w s store (fetch_failed e) = (s, w.files, collect_failed (source_error e))

collect_from : World → Service → Option (ℕ → Fetched (List RawCounter)) → Option Store → Outcome
unfolding with_counters
collect_from w s none store = (s, w.files, collect_failed not_configured)
collect_from w s (some source) none = (s, w.files, collect_failed not_configured)
collect_from w s (some source) (some store) = with_counters w s store (source s.timeout)

unfoldable pub collect : World → Service → Outcome
unfolding collect_from
collect w s = collect_from w s s.source s.store
